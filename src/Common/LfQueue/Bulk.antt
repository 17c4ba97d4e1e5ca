-- ===== src/Common/LfQueue/Bulk.antt =====
-- A loop that writes each element of a list to the queue of common/lf_queue.h.
use low_latency_trading_syst.Prelude.{
  ◌+◌, ◌≤◌, ◌<◌, ◌≡◌, refl, sym, ap, ◌∙◌, arith, List, [], ◌∷◌, ◌++◌, length, append-nil,
  append_assoc,
}
use low_latency_trading_syst.Common.LfQueue.Defs.{LfQueue, push, write_next, update_write_index}
use low_latency_trading_syst.Common.LfQueue.Fifo.{contents, IsValid, contents-push, push-IsValid}

module _ {A : Type 0} where
  unfoldable pub push_all : LfQueue A → List A → LfQueue A
  push_all q [] = q
  push_all q (a ∷ l) = push_all (push q a) l

  pub push-sizes :
      (q : LfQueue A) (a : A)
      → IsValid q
      → q.num_elements < q.capacity
      → ((push q a).num_elements ≡ q.num_elements + 1) × ((push q a).capacity ≡ q.capacity)
  unfolding push write_next update_write_index
  push-sizes q a v room = (omega (arith, v.addressable), refl)

  -- A queue has gained `l` behind its elements.
  pub record Gained (q q' : LfQueue A) (l : List A) : Type 0 where
    pub behind : contents q' ≡ contents q ++ l
    pub valid : IsValid q'

  pub Gained-none : (q : LfQueue A) → IsValid q → Gained q q []
  Gained-none q v = record { behind = sym (append-nil (contents q)); valid = v }

  pub Gained-push :
      (q q' : LfQueue A) (a : A) (l : List A)
      → IsValid q
      → q.num_elements < q.capacity
      → Gained (push q a) q' l
      → Gained q q' (a ∷ l)
  Gained-push q q' a l v room g = record {
    behind =
        g.behind
        ∙ ap (λ k. k ++ l) (contents-push q v a room)
        ∙ append_assoc (contents q) (a ∷ []) l;
    valid = g.valid;
  }

  -- With room for all, the elements end up behind those of the queue.
  pub push_all-Gained :
      (q : LfQueue A) (l : List A)
      → IsValid q
      → q.num_elements + length l ≤ q.capacity
      → Gained q (push_all q l) l
  unfolding push_all
  push_all-Gained q [] v room = Gained-none q v
  push_all-Gained q (a ∷ l) v room =
      let here : q.num_elements < q.capacity = omega (arith, room) in
      Gained-push q (push_all (push q a) l) a l v here (
        push_all-Gained (push q a) l (push-IsValid q v a here)
          (omega (arith, room, push-sizes q a v here)))
