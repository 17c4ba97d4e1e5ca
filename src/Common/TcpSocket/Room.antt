-- ===== src/Common/TcpSocket/Room.antt =====
-- `send` of common/tcp_socket.cpp on a socket that has room, and on one that is closed.
use low_latency_trading_syst.Prelude.{
  ℕ, ◌+◌, ◌≤◌, ◌≡◌, refl, sym, ap, ◌∙◌, arith, true, false, List, [], ◌++◌, length, length-append,
  append-nil, append_assoc, ◌⊎◌, inl, inr, ok,
}
use low_latency_trading_syst.Common.TcpSocket.Defs.{TcpSocket, tcp_buffer_size, send}
use low_latency_trading_syst.Common.TcpSocket.Sending.{pending, stream, IsValid, send-stream}

-- An open socket that has room for `n` bytes.
pub record HasRoom (s : TcpSocket) (n : ℕ) : Type 0 where
  pub opened : s.closed ≡ false
  pub valid : IsValid s
  pub room : length (pending s) + n ≤ tcp_buffer_size

pub send-HasRoom :
    (s : TcpSocket) (bytes : List ℕ) (n : ℕ)
    → HasRoom s (length bytes + n)
    → (s' : TcpSocket) × (send s bytes ≡ ok s') × (stream s' ≡ stream s ++ bytes) × HasRoom s' n
send-HasRoom s bytes n h =
    let (s', run, grown, same, opened, valid) =
      send-stream s bytes h.opened h.valid (omega (arith, h.room)) in
    (
      s',
      run,
      grown,
      record {
        opened = opened;
        valid = valid;
        room = omega (
          arith,
          h.room,
          ap length grown,
          ap length same,
          length-append s.wire (pending s),
          length-append s'.wire (pending s'),
          length-append (s.wire ++ pending s) bytes,
        );
      },
    )

-- A socket that is closed, or has room for `n` bytes.
abbrev pub Ready : TcpSocket → ℕ → Type 0
Ready s n = (s.closed ≡ true) ⊎ HasRoom s n

-- An open socket has been given the bytes; a closed one is as it was.
pub record Grown (s s' : TcpSocket) (bytes : List ℕ) : Type 0 where
  pub closed : s'.closed ≡ s.closed
  pub when_open : s.closed ≡ false → stream s' ≡ stream s ++ bytes
  pub when_closed : s.closed ≡ true → s' ≡ s

pub Grown-none : (s : TcpSocket) → Grown s s []
Grown-none s = record {
  closed = refl;
  when_open = λ _. sym (append-nil (stream s));
  when_closed = λ _. refl;
}

pub Grown-then : {s t u : TcpSocket} {a b : List ℕ} → Grown s t a → Grown t u b → Grown s u (a ++ b)
Grown-then {s} {t} {u} {a} {b} g h = record {
  closed = h.closed ∙ g.closed;
  when_open = λ e.
      h.when_open (g.closed ∙ e) ∙ ap (λ l. l ++ b) (g.when_open e) ∙ append_assoc (stream s) a b;
  when_closed = λ e. h.when_closed (g.closed ∙ e) ∙ g.when_closed e;
}

-- On a socket that is closed or has room, `send` returns.
pub send-Ready :
    (s : TcpSocket) (bytes : List ℕ) (n : ℕ)
    → Ready s (length bytes + n)
    → (s' : TcpSocket) × (send s bytes ≡ ok s') × Grown s s' bytes × Ready s' n
unfolding send
send-Ready s bytes n (inl shut) = (
  s,
  rw shut refl,
  record {
    closed = refl;
    when_open = λ e. absurd (ground (arith, e, shut));
    when_closed = λ _. refl;
  },
  inl shut,
)
send-Ready s bytes n (inr room) =
    let (s', run, grown, h) = send-HasRoom s bytes n room in
    (
      s',
      run,
      record {
        closed = h.opened ∙ sym room.opened;
        when_open = λ _. grown;
        when_closed = λ e. absurd (ground (arith, e, room.opened));
      },
      inr h,
    )
