-- ===== src/Common/TcpSocket/Sending.antt =====
-- The sending of common/tcp_socket.cpp as one stream of bytes.
use low_latency_trading_syst.Prelude.{
  ℕ, zero, suc, ◌+◌, ◌-◌, ◌≤◌, ◌≡◌, refl, sym, ap, ◌∙◌, subst, arith, Bool, true, false, not, ◌&&◌,
  ◌==◌, ltb, List, [], ◌∷◌, ◌++◌, length, length-append, append_assoc, Bool-cases, inl, inr, ok,
}
use low_latency_trading_syst.Common.TcpSocket.Defs.{
  take, drop, tcp_buffer_size, TcpSocket, close_socket, compact, send, SendAnswer, send_loop,
  send_out,
}

-- The bytes that the kernel has not taken, and all that was ever given to the socket.
abbrev pub pending : TcpSocket → List ℕ
pending s = drop s.next_send_index s.outbound

abbrev pub stream : TcpSocket → List ℕ
stream s = s.wire ++ pending s

abbrev pub IsValid : TcpSocket → Type 0
IsValid s = s.next_send_index ≤ length s.outbound

drop-append : (n : ℕ) (l k : List ℕ) → n ≤ length l → drop n (l ++ k) ≡ drop n l ++ k
drop-append zero l k h = refl
drop-append (suc n) [] k h = absurd (omega (arith, h))
drop-append (suc n) (a ∷ l) k h = drop-append n l k (omega (arith, h))

length-drop : (n : ℕ) (l : List ℕ) → length (drop n l) ≡ length l - n
length-drop zero l = omega arith
length-drop (suc n) [] = omega arith
length-drop (suc n) (a ∷ l) = length-drop n l ∙ omega arith

take-drop : (n : ℕ) (l : List ℕ) → take n l ++ drop n l ≡ l
take-drop zero l = refl
take-drop (suc n) [] = refl
take-drop (suc n) (a ∷ l) = ap (λ k. a ∷ k) (take-drop n l)

drop_nil : (i : ℕ) → drop i [] ≡ []
drop_nil zero = refl
drop_nil (suc i) = refl

drop-drop : (n m : ℕ) (l : List ℕ) → drop m (drop n l) ≡ drop (n + m) l
drop-drop zero m l = let same : m ≡ 0 + m = omega arith in ap (λ i. drop i l) same
drop-drop (suc n) m [] = drop_nil m ∙ sym (drop_nil (suc n + m))
drop-drop (suc n) m (a ∷ l) =
    let same : suc (n + m) ≡ suc n + m = omega arith in
    drop-drop n m l ∙ ap (λ i. drop i (a ∷ l)) same

-- On an open socket whose buffer has room for the bytes beside the bytes that the kernel has not taken,
-- `send` returns and puts the bytes behind all that was given to the socket, whether or not it moves the
-- buffer.
pub send-stream :
    (s : TcpSocket) (bytes : List ℕ)
    → s.closed ≡ false
    → IsValid s
    → length (pending s) + length bytes ≤ tcp_buffer_size
    → (s' : TcpSocket) × (send s bytes ≡ ok s')
      × (stream s' ≡ stream s ++ bytes)
      × (s'.wire ≡ s.wire)
      × (s'.closed ≡ false)
      × IsValid s'
unfolding send compact
send-stream s bytes opened v room =
    elim (Bool-cases
      (ltb tcp_buffer_size (length s.outbound + length bytes) && ltb 0 s.next_send_index)) [
        | inl moved ↦ (
          record s { outbound = pending s ++ bytes; next_send_index = 0 },
          ground (arith, opened, moved, room),
          sym (append_assoc s.wire (pending s) bytes),
          refl,
          opened,
          omega arith,
        )
        | inr kept ↦ (
          record s { outbound = s.outbound ++ bytes },
          ground (arith, opened, kept, room, length-drop s.next_send_index s.outbound),
          ap (λ l. s.wire ++ l) (drop-append s.next_send_index s.outbound bytes v)
              ∙ sym (append_assoc s.wire (pending s) bytes),
          refl,
          opened,
          omega (arith, v, length-append s.outbound bytes),
        )
      ]

-- The kernel takes no more than it is given: the documented bound of each answer, `left` bytes being
-- there for the first.
abbrev pub Within : ℕ → List SendAnswer → Type 0
Within left [] = Unit
Within left (SendAnswer.sent n ∷ answers) = (n ≤ left) × Within (left - n) answers
Within left (SendAnswer.interrupted ∷ answers) = Within left answers
Within left (SendAnswer.would_block ∷ answers) = Within left answers
Within left (SendAnswer.failed ∷ answers) = Within left answers

-- What the sending loop leaves alone.
pub record Streamed (s s' : TcpSocket) : Type 0 where
  pub same : stream s' ≡ stream s
  pub valid : IsValid s'
  pub outbound : s'.outbound ≡ s.outbound

Streamed-refl : (s : TcpSocket) → IsValid s → Streamed s s
Streamed-refl s v = record { same = refl; valid = v; outbound = refl }

-- `n` bytes more are on the wire.
abbrev took : TcpSocket → ℕ → TcpSocket
took s n = record s { next_send_index = s.next_send_index + n; wire = s.wire ++ take n (pending s) }

took-stream : (s : TcpSocket) (n : ℕ) → stream (took s n) ≡ stream s
took-stream s n =
    append_assoc s.wire (take n (pending s)) (drop (s.next_send_index + n) s.outbound)
    ∙ ap (λ l. s.wire ++ l)
        (ap (λ l. take n (pending s) ++ l) (sym (drop-drop s.next_send_index n s.outbound))
          ∙ take-drop n (pending s))

-- The loop goes on.
abbrev going : TcpSocket → Bool
going s = not s.closed && ltb s.next_send_index (length s.outbound)

stopped :
    (l : List SendAnswer) (s : TcpSocket)
    → going s ≡ false
    → send_loop (l ++ SendAnswer.would_block ∷ []) s ≡ ok s
unfolding send_loop
stopped [] s over = rw (send_loop, over) refl
stopped (a ∷ l) s over = rw (send_loop, over) refl

-- The outcome of the sending loop, when the kernel blocks at the end.
abbrev Sends : List SendAnswer → TcpSocket → Type 0
Sends answers s =
    (s' : TcpSocket) × (send_loop (answers ++ SendAnswer.would_block ∷ []) s ≡ ok s')
    × Streamed s s'

by_going :
    (answers : List SendAnswer) (s : TcpSocket)
    → IsValid s
    → (going s ≡ true → Sends answers s)
    → Sends answers s
by_going answers s v go = elim (Bool-cases (going s)) [
  | inl on ↦ go on
  | inr over ↦ (s, stopped answers s over, Streamed-refl s v)
]

-- With a kernel that takes no more than it is given, and that says at the end that it would block, the
-- sending loop returns, however the kernel splits the bytes, and loses, repeats or moves none of the stream.
send_loop-Streamed :
    (answers : List SendAnswer) (s : TcpSocket)
    → IsValid s
    → Within (length (pending s)) answers
    → Sends answers s
unfolding send_loop close_socket
send_loop-Streamed [] s v w =
    by_going [] s v (λ on. (s, rw (send_loop, on) refl, Streamed-refl s v))
send_loop-Streamed (SendAnswer.would_block ∷ l) s v w =
    by_going (SendAnswer.would_block ∷ l) s v
      (λ on. (s, rw (send_loop, on) refl, Streamed-refl s v))
send_loop-Streamed (SendAnswer.failed ∷ l) s v w = by_going (SendAnswer.failed ∷ l) s v (λ on. (
  record s { closed = true },
  rw (send_loop, on) refl,
  record { same = refl; valid = v; outbound = refl },
))
send_loop-Streamed (SendAnswer.interrupted ∷ l) s v w =
    let (s', run, r) = send_loop-Streamed l s v w in
    by_going (SendAnswer.interrupted ∷ l) s v (λ on. (s', rw (send_loop, on) run, r))
send_loop-Streamed (SendAnswer.sent n ∷ l) s v w =
    let there = length-drop s.next_send_index s.outbound in
    let left = length-drop (s.next_send_index + n) s.outbound in
    let (s', run, r) =
      send_loop-Streamed l (took s n) (omega (arith, v, w.0, there))
        (subst (λ k. Within k l) (omega (arith, there, left)) w.1) in
    by_going (SendAnswer.sent n ∷ l) s v (λ on. elim (Bool-cases (n == 0)) [
      | inl nothing ↦ (
        record s { closed = true },
        rw (send_loop, on) (rw nothing refl),
        record { same = refl; valid = v; outbound = refl },
      )
      | inr some_there ↦ (
        s',
        rw (send_loop, on) (rw some_there run),
        record { same = r.same ∙ took-stream s n; valid = r.valid; outbound = r.outbound },
      )
    ])

drop_all : (l : List ℕ) → drop (length l) l ≡ []
drop_all [] = refl
drop_all (a ∷ l) = drop_all l

-- With a kernel that takes no more than it is given, and that says at the end that it would block, the
-- sending of `sendAndRecv` returns, however the kernel splits the bytes, and no byte of the stream is
-- lost, repeated or moved: what is on the wire and what is pending are together what they were.
pub send_out-stream :
    (answers : List SendAnswer) (s : TcpSocket)
    → IsValid s
    → Within (length (pending s)) answers
    → (s' : TcpSocket) × (send_out (answers ++ SendAnswer.would_block ∷ []) s ≡ ok s')
      × (stream s' ≡ stream s)
      × IsValid s'
unfolding send_out
send_out-stream answers s v w =
    let (s1, run, r) = send_loop-Streamed answers s v w in
    elim (Bool-cases (s1.next_send_index == length s1.outbound)) [
      | inl emptied ↦
          let all : s1.next_send_index ≡ length s1.outbound = ground (arith, emptied) in
          (
            record s1 { outbound = []; next_send_index = 0 },
            rw run (rw emptied refl),
            ap (λ l. s1.wire ++ l) (sym (ap (λ i. drop i s1.outbound) all ∙ drop_all s1.outbound))
                ∙ r.same,
            omega arith,
          )
      | inr rest ↦ (s1, rw run (rw rest refl), r.same, r.valid)
    ]
