-- ===== src/Holonrpc/Pending/Steps.antt =====
-- Histories of a pending table: calls that come and go, responses and disconnects in any order.
use go_holons.Common.{
  ℕ, ◌<◌, ◌≡◌, ◌≢◌, ◌∙◌, Option, none, some, List, [], ◌∷◌, arith, if◌then◌else◌, Bool-cases, inl,
  inr, All,
}
use go_holons.Common.Text.{Text, text_eq, text_eq_iff, text_eq_refl}
use go_holons.Common.Map.{lookup, erase, lookup-insert, lookup-erase}
use go_holons.Holonrpc.Pending.{Pending, register, unregister, deliver, fail_all, receive}
use go_holons.Holonrpc.Pending.Laws.{
  IsValid, Unlisted, channel, Unlisted-lookup, Unlisted-insert, Unlisted-erase, Unlisted-erase_self,
  Distinct-owned, register-IsValid, unregister-IsValid, deliver-IsValid, fail_all-IsValid,
  receive-IsValid, send_all-full, send_all-Unlisted, send_all-listed,
}

-- One locked section of the code, by whichever goroutine.
pub data Event (M : Type 0) : Type 0 where
  registers unregisters : Text → Event M
  delivers : Text → M → Event M
  fails : M → Event M
  receives : ℕ → Event M

module _ {M : Type 0} where
  unfoldable pub step : Event M → Pending M → Pending M
  unfolding register unregister deliver fail_all receive
  step (registers k) p = (register k p).1
  step (unregisters k) p = unregister k p
  step (delivers k m) p = deliver k m p
  step (fails m) p = fail_all m p
  step (receives c) p = (receive c p).1

  unfoldable pub run : List (Event M) → Pending M → Pending M
  unfolding step
  run [] p = p
  run (e ∷ es) p = run es (step e p)

  pub step-IsValid : (e : Event M) (p : Pending M) → IsValid p → IsValid (step e p)
  unfolding step
  step-IsValid (registers k) p v = register-IsValid k p v
  step-IsValid (unregisters k) p v = unregister-IsValid k p v
  step-IsValid (delivers k m) p v = deliver-IsValid k m p v
  step-IsValid (fails m) p v = fail_all-IsValid m p v
  step-IsValid (receives c) p v = receive-IsValid c p v

  -- After any history from the empty table, no two calls share a channel.
  pub run-IsValid : (es : List (Event M)) (p : Pending M) → IsValid p → IsValid (run es p)
  unfolding run
  run-IsValid [] p v = v
  run-IsValid (e ∷ es) p v = run-IsValid es (step e p) (step-IsValid e p v)

  -- What one call is to receive: the first response with its key or the first error of a
  -- disconnect, whichever comes first while the call is registered.
  abbrev pub first_answer : Text → List (Event M) → Option M
  first_answer k [] = none
  first_answer k (registers j ∷ es) = first_answer k es
  first_answer k (unregisters j ∷ es) = if text_eq j k then none else first_answer k es
  first_answer k (delivers j m ∷ es) = if text_eq j k then some m else first_answer k es
  first_answer k (fails m ∷ es) = some m
  first_answer k (receives c ∷ es) = first_answer k es

  -- The key is not used again, and nobody else reads the channel.
  abbrev pub LeavesAlone : Text → ℕ → Event M → Type 0
  LeavesAlone k c (registers j) = j ≢ k
  LeavesAlone k c (receives d) = d ≢ c
  LeavesAlone k c _ = Unit {0}

  -- An answered call keeps its answer.
  step-answered :
      (k : Text) (c : ℕ) (m : M) (e : Event M) (p : Pending M)
      → LeavesAlone k c e
      → p.buffers c ≡ some m
      → (step e p).buffers c ≡ some m
  unfolding step
  step-answered k c m (registers j) p a h = h
  step-answered k c m (unregisters j) p a h = h
  step-answered k c m (delivers j n) p a h = ground arith
  step-answered k c m (fails n) p a h = send_all-full p.table c n m p.buffers h
  step-answered k c m (receives d) p a h = ground arith

  run-answered :
      (k : Text) (c : ℕ) (m : M) (es : List (Event M)) (p : Pending M)
      → All (LeavesAlone k c) es
      → p.buffers c ≡ some m
      → (run es p).buffers c ≡ some m
  unfolding run
  run-answered k c m [] p a h = h
  run-answered k c m (e ∷ es) p (a, rest) h =
      run-answered k c m es (step e p) rest (step-answered k c m e p a h)

  -- A call that has left the table with an empty buffer.
  IsGone : ℕ → Pending M → Type 0
  IsGone c p = Unlisted c p.table × (c < p.next) × (p.buffers c ≡ none)

  step-IsGone :
      (k : Text) (c : ℕ) (e : Event M) (p : Pending M)
      → LeavesAlone k c e
      → IsGone c p
      → IsGone c (step e p)
  unfolding step IsGone
  step-IsGone k c (registers j) p a h =
      (Unlisted-insert c p.next j p.table (λ e. omega (arith, h.1)) h.0, omega (arith, h.1), h.2)
  step-IsGone k c (unregisters j) p a h = (Unlisted-erase c j p.table h.0, h.1, h.2)
  step-IsGone k c (delivers j n) p a h =
      ground (arith, Unlisted-lookup c (channel j p) j p.table h.0)
  step-IsGone k c (fails n) p a h = (tt, h.1, send_all-Unlisted p.table c n p.buffers h.0 ∙ h.2)
  step-IsGone k c (receives d) p a h = (h.0, h.1, ground arith)

  run-IsGone :
      (k : Text) (c : ℕ) (es : List (Event M)) (p : Pending M)
      → All (LeavesAlone k c) es
      → IsGone c p
      → (run es p).buffers c ≡ none
  unfolding run IsGone
  run-IsGone k c [] p a h = h.2
  run-IsGone k c (e ∷ es) p (a, rest) h =
      run-IsGone k c es (step e p) rest (step-IsGone k c e p a h)

  -- A call that is registered and has no answer yet.
  pub record IsWaiting (k : Text) (c : ℕ) (p : Pending M) : Type 0 where
    pub valid : IsValid p
    pub listed : lookup k p.table ≡ some c
    pub low : c < p.next
    pub unanswered : p.buffers c ≡ none

  waits :
      (k : Text) (c : ℕ) (e : Event M) (p : Pending M)
      → IsWaiting k c p
      → lookup k (step e p).table ≡ some c
      → c < (step e p).next
      → (step e p).buffers c ≡ none
      → IsWaiting k c (step e p)
  waits k c e p w l h u = record {
    valid = step-IsValid e p w.valid;
    listed = l;
    low = h;
    unanswered = u;
  }

  run-first_answer :
      (k : Text) (c : ℕ) (es : List (Event M)) (p : Pending M)
      → All (LeavesAlone k c) es
      → IsWaiting k c p
      → (run es p).buffers c ≡ first_answer k es
  unfolding run step IsGone
  run-first_answer k c [] p a w = w.unanswered
  run-first_answer k c (registers j ∷ es) p (a, rest) w =
      run-first_answer k c es (step (registers j) p) rest (
        waits k c (registers j) p w
          (ground (arith, lookup-insert j k p.next p.table, text_eq_iff j k, w.listed))
          (omega (arith, w.low)) w.unanswered)
  run-first_answer k c (unregisters j ∷ es) p (a, rest) w = elim (Bool-cases (text_eq j k)) [
    | inl same ↦
        let e : j ≡ k = (text_eq_iff j k).0 same in
        let gone : Unlisted c (erase j p.table) =
          rw e (Unlisted-erase_self k c p.table w.valid.distinct w.listed) in
        rw same (run-IsGone k c es (unregister j p) rest (gone, w.low, w.unanswered))
    | inr other ↦ rw other (
        run-first_answer k c es (step (unregisters j) p) rest (
          waits k c (unregisters j) p w (ground (arith, lookup-erase j k p.table, w.listed)) w.low
            w.unanswered))
  ]
  run-first_answer k c (delivers j m ∷ es) p (a, rest) w = elim (Bool-cases (text_eq j k)) [
    | inl same ↦
        let e : lookup j p.table ≡ some c = rw ((text_eq_iff j k).0 same) w.listed in
        rw same
          (run-answered k c m es (step (delivers j m) p) rest (ground (arith, e, w.unanswered)))
    | inr other ↦ rw other (
        run-first_answer k c es (step (delivers j m) p) rest (
          waits k c (delivers j m) p w (ground (arith, w.listed)) (ground (arith, w.low)) (
            ground (
              arith,
              w.listed,
              w.unanswered,
              text_eq_iff j k,
              Distinct-owned j k (channel j p) p.table w.valid.distinct,
            ))))
  ]
  run-first_answer k c (fails m ∷ es) p (a, rest) w =
      run-answered k c m es (step (fails m) p) rest
        (send_all-listed p.table k c m p.buffers w.listed ∙ rw w.unanswered)
  run-first_answer k c (receives d ∷ es) p (a, rest) w =
      run-first_answer k c es (step (receives d) p) rest
        (waits k c (receives d) p w w.listed w.low (ground (arith, w.unanswered)))

  -- A call that registers its key in a valid table finds in its channel, after any history that
  -- does not use the key again and leaves the channel to it, the first response with the key or
  -- the first disconnect's error, whichever came first while the key was registered; else nothing.
  pub register-first_answer :
      (k : Text) (p : Pending M) (es : List (Event M))
      → IsValid p
      → All (LeavesAlone k p.next) es
      → (run es (register k p).1).buffers (register k p).0 ≡ first_answer k es
  unfolding step
  register-first_answer k p es v a = run-first_answer k p.next es (register k p).1 a (record {
    valid = register-IsValid k p v;
    listed = ground (arith, lookup-insert k k p.next p.table, text_eq_refl k);
    low = omega arith;
    unanswered = v.fresh p.next (omega arith);
  })
