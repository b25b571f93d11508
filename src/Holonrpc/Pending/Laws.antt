-- ===== src/Holonrpc/Pending/Laws.antt =====
-- The pending table as its callers see it: for each key, whether a call waits, and its answer.
use go_holons.Common.{
  ℕ, suc, ◌<◌, ◌≤◌, ◌≡◌, ◌≢◌, refl, sym, ap, ◌∙◌, Option, none, some, [], ◌∷◌, arith, ◌==◌,
  if◌then◌else◌, Option-cases, Bool-cases, inl, inr,
}
use go_holons.Common.Text.{text_eq_refl, Text, text_eq, text_eq_iff}
use go_holons.Common.Map.{Map, lookup, insert, erase, lookup-insert, lookup-erase}
use go_holons.Holonrpc.Pending.{
  Pending, empty, register, unregister, fill, try_send, deliver, send_all, fail_all, receive,
}

-- No key leads to the channel.
abbrev pub Unlisted : ℕ → Map ℕ → Type 0
Unlisted c [] = Unit
Unlisted c ((_, ch) ∷ t) = (ch ≢ c) × Unlisted c t

-- Every channel of the table has been allocated.
abbrev pub Below : ℕ → Map ℕ → Type 0
Below n [] = Unit
Below n ((_, ch) ∷ t) = (ch < n) × Below n t

Below-lookup : (n : ℕ) (k : Text) (c : ℕ) (t : Map ℕ) → Below n t → lookup k t ≡ some c → c < n
unfolding lookup
Below-lookup n k c [] b e = cc
Below-lookup n k c ((j, ch) ∷ t) b e = ground (arith, Below-lookup n k c t b.1)

Below-suc : (n : ℕ) (t : Map ℕ) → Below n t → Below (suc n) t
Below-suc n [] b = tt
Below-suc n ((j, ch) ∷ t) b = (omega arith, Below-suc n t b.1)

Below-insert : (n : ℕ) (k : Text) (t : Map ℕ) → Below n t → Below (suc n) (insert k n t)
unfolding insert
Below-insert n k [] b = (omega arith, tt)
Below-insert n k ((j, ch) ∷ t) b = ground (arith, Below-insert n k t b.1, Below-suc n t b.1)

Below-erase : (n : ℕ) (k : Text) (t : Map ℕ) → Below n t → Below n (erase k t)
unfolding erase
Below-erase n k [] b = tt
Below-erase n k ((j, ch) ∷ t) b = ground (arith, Below-erase n k t b.1)

Below-Unlisted : (n c : ℕ) (t : Map ℕ) → n ≤ c → Below n t → Unlisted c t
Below-Unlisted n c [] h b = tt
Below-Unlisted n c ((j, ch) ∷ t) h b = (λ e. omega (arith, b.0), Below-Unlisted n c t h b.1)

-- No two entries share a channel.
abbrev pub Distinct : Map ℕ → Type 0
Distinct [] = Unit
Distinct ((_, ch) ∷ t) = Unlisted ch t × Distinct t

pub Unlisted-lookup : (c d : ℕ) (k : Text) (t : Map ℕ) → Unlisted c t → lookup k t ≡ some d → d ≢ c
unfolding lookup
Unlisted-lookup c d k [] u e = cc
Unlisted-lookup c d k ((j, ch) ∷ t) u e = ground (arith, Unlisted-lookup c d k t u.1)

pub Unlisted-insert :
    (c n : ℕ) (k : Text) (t : Map ℕ) → n ≢ c → Unlisted c t → Unlisted c (insert k n t)
unfolding insert
Unlisted-insert c n k [] h u = (h, tt)
Unlisted-insert c n k ((j, ch) ∷ t) h u = ground (arith, Unlisted-insert c n k t h u.1)

pub Unlisted-erase : (c : ℕ) (k : Text) (t : Map ℕ) → Unlisted c t → Unlisted c (erase k t)
unfolding erase
Unlisted-erase c k [] u = tt
Unlisted-erase c k ((j, ch) ∷ t) u = ground (arith, Unlisted-erase c k t u.1)

Distinct-insert :
    (n : ℕ) (k : Text) (t : Map ℕ) → Unlisted n t → Distinct t → Distinct (insert k n t)
unfolding insert
Distinct-insert n k [] u d = (tt, tt)
Distinct-insert n k ((j, ch) ∷ t) u d =
    ground (arith, Distinct-insert n k t u.1 d.1, Unlisted-insert ch n k t (λ e. u.0 (sym e)) d.0)

Distinct-erase : (k : Text) (t : Map ℕ) → Distinct t → Distinct (erase k t)
unfolding erase
Distinct-erase k [] d = tt
Distinct-erase k ((j, ch) ∷ t) d = ground (arith, Distinct-erase k t d.1, Unlisted-erase ch k t d.0)

-- So a channel leads back to its key.
pub Distinct-owned :
    (j k : Text) (c : ℕ) (t : Map ℕ)
    → Distinct t
    → lookup j t ≡ some c
    → lookup k t ≡ some c
    → j ≡ k
unfolding lookup
Distinct-owned j k c [] d e f = cc
Distinct-owned j k c ((i, ch) ∷ t) d e f = ground (
  arith,
  text_eq_iff i j,
  text_eq_iff i k,
  Distinct-owned j k c t d.1,
  Unlisted-lookup ch c j t d.0,
  Unlisted-lookup ch c k t d.0,
)

-- A key that is deleted takes its channel out of the table.
pub Unlisted-erase_self :
    (k : Text) (c : ℕ) (t : Map ℕ) → Distinct t → lookup k t ≡ some c → Unlisted c (erase k t)
unfolding lookup erase
Unlisted-erase_self k c [] d e = cc
Unlisted-erase_self k c ((j, ch) ∷ t) d e =
    ground (
      arith,
      Unlisted-erase_self k c t d.1,
      Unlisted-lookup ch c k t d.0,
      Unlisted-erase ch k t d.0,
    )

module _ {M : Type 0} where
  -- Channels of the table were allocated, no two keys share one, and a channel that is still to
  -- come is empty.
  pub record IsValid (p : Pending M) : Type 0 where
    pub allocated : Below p.next p.table
    pub distinct : Distinct p.table
    pub fresh : (c : ℕ) → p.next ≤ c → p.buffers c ≡ none

  pub empty-IsValid : IsValid empty
  unfolding empty lookup
  empty-IsValid = record { allocated = tt; distinct = tt; fresh = λ c h. refl }

  pub register-IsValid : (k : Text) (p : Pending M) → IsValid p → IsValid (register k p).1
  unfolding register
  register-IsValid k p v = record {
    allocated = Below-insert p.next k p.table v.allocated;
    distinct =
        Distinct-insert p.next k p.table
          (Below-Unlisted p.next p.next p.table (omega arith) v.allocated) v.distinct;
    fresh = λ c h. v.fresh c (omega arith);
  }

  -- `none`: no call waits under the key; `some none`: one waits; `some (some m)`: it is answered.
  abbrev pub view : Pending M → Text → Option (Option M)
  view p k = elim (lookup k p.table) [ none ↦ none | some c ↦ some (p.buffers c) ]

  -- The channel of a key, or 0.
  abbrev pub channel : Text → Pending M → ℕ
  channel k p = elim (lookup k p.table) [ none ↦ 0 | some c ↦ c ]

  pub view-register :
      (k j : Text) (p : Pending M)
      → IsValid p
      → view (register k p).1 j ≡ (if text_eq k j then some none else view p j)
  unfolding register
  view-register k j p v = ground (arith, lookup-insert k j p.next p.table, v.fresh p.next)

  pub view-deliver :
      (k j : Text) (m : M) (p : Pending M)
      → IsValid p
      → view (deliver k m p) j ≡ (
          if text_eq k j
          then elim (view p j) [ none ↦ none | some b ↦ some (fill m b) ]
          else view p j)
  unfolding deliver
  view-deliver k j m p v =
      ground (arith, text_eq_iff k j, Distinct-owned k j (channel k p) p.table v.distinct)

  pub unregister-IsValid : (k : Text) (p : Pending M) → IsValid p → IsValid (unregister k p)
  unfolding unregister
  unregister-IsValid k p v = record {
    allocated = Below-erase p.next k p.table v.allocated;
    distinct = Distinct-erase k p.table v.distinct;
    fresh = λ c h. v.fresh c h;
  }

  pub view-unregister :
      (k j : Text) (p : Pending M)
      → view (unregister k p) j ≡ (if text_eq k j then none else view p j)
  unfolding unregister
  view-unregister k j p = ground (arith, lookup-erase k j p.table)

  try_send-other : (ch c : ℕ) (m : M) (b : ℕ → Option M) → ch ≢ c → try_send ch m b c ≡ b c
  unfolding try_send
  try_send-other ch c m b h = ground arith

  try_send-full :
      (ch c : ℕ) (m x : M) (b : ℕ → Option M) → b c ≡ some x → try_send ch m b c ≡ some x
  unfolding try_send
  try_send-full ch c m x b h = ground arith

  try_send_self : (c : ℕ) (m : M) (b : ℕ → Option M) → try_send c m b c ≡ fill m (b c)
  unfolding try_send
  try_send_self c m b = ground arith

  pub send_all-full :
      (t : Map ℕ) (c : ℕ) (m x : M) (b : ℕ → Option M) → b c ≡ some x → send_all t m b c ≡ some x
  unfolding send_all
  send_all-full [] c m x b h = h
  send_all-full ((k, ch) ∷ t) c m x b h =
      send_all-full t c m x (try_send ch m b) (try_send-full ch c m x b h)

  pub send_all-Unlisted :
      (t : Map ℕ) (c : ℕ) (m : M) (b : ℕ → Option M) → Unlisted c t → send_all t m b c ≡ b c
  unfolding send_all
  send_all-Unlisted [] c m b h = refl
  send_all-Unlisted ((k, ch) ∷ t) c m b (differ, h) =
      send_all-Unlisted t c m (try_send ch m b) h ∙ try_send-other ch c m b differ

  fill-some : (m : M) (o : Option M) → (x : M) × (fill m o ≡ some x)
  fill-some m none = (m, refl)
  fill-some m (some x) = (x, refl)

  -- Every call in the table is answered by the error, unless it has its answer.
  pub send_all-listed :
      (t : Map ℕ) (k : Text) (c : ℕ) (m : M) (b : ℕ → Option M)
      → lookup k t ≡ some c
      → send_all t m b c ≡ fill m (b c)
  unfolding send_all lookup
  send_all-listed [] k c m b h = cc
  send_all-listed ((j, ch) ∷ t) k c m b h = elim (Bool-cases (ch == c)) [
    | inl same ↦
        let here : ch ≡ c = ground arith in
        let (x, filled) = fill-some m (b c) in
        send_all-full t c m x (try_send ch m b) (rw here (try_send_self c m b ∙ filled))
        ∙ sym filled
    | inr other ↦
        let differ : ch ≢ c = ground arith in
        send_all-listed t k c m (try_send ch m b) (ground arith)
        ∙ ap (fill m) (try_send-other ch c m b differ)
  ]

  pub deliver-IsValid : (k : Text) (m : M) (p : Pending M) → IsValid p → IsValid (deliver k m p)
  unfolding deliver
  deliver-IsValid k m p v = elim (Option-cases (lookup k p.table)) [
    | inl missing ↦ rw (missing, deliver) v
    | inr (ch, found) ↦
        let low = Below-lookup p.next k ch p.table v.allocated found in
        rw (found, deliver)
          (record {
            allocated = v.allocated;
            distinct = v.distinct;
            fresh = λ c h. try_send-other ch c m p.buffers (λ e. omega (arith, low)) ∙ v.fresh c h;
          })
  ]

  pub fail_all-IsValid : (m : M) (p : Pending M) → IsValid p → IsValid (fail_all m p)
  unfolding fail_all lookup
  fail_all-IsValid m p v = record {
    allocated = tt;
    distinct = tt;
    fresh = λ c h.
        send_all-Unlisted p.table c m p.buffers (Below-Unlisted p.next c p.table h v.allocated)
        ∙ v.fresh c h;
  }

  pub receive-IsValid : (ch : ℕ) (p : Pending M) → IsValid p → IsValid (receive ch p).1
  unfolding receive
  receive-IsValid ch p v = record {
    allocated = v.allocated;
    distinct = v.distinct;
    fresh = λ c h. ground (arith, v.fresh c h);
  }

  -- A call that has just registered waits, and the next message with its key answers it.
  pub registered-answer :
      (id : Text) (p : Pending M) (m : M)
      → IsValid p
      → (view (register id p).1 id ≡ some none)
        × ((deliver id m (register id p).1).buffers (register id p).0 ≡ some m)
  unfolding register deliver try_send
  registered-answer id p m v =
      let here = lookup-insert id id p.next p.table in
      let same = text_eq_refl id in
      let free = v.fresh p.next (omega arith) in
      (ground (arith, here, same, free), ground (arith, here, same, free))
