-- ===== src/Holonrpc/Server/Sends.antt =====
-- The responses among the frames that a step of pkg/holonrpc/server.go sends, step by step.
use mathlib.Core.List.{append-nil}
use go_holons.Common.{◌≡◌, refl, List, [], Bool, true, false, keep, keep-append, if◌then◌else◌}
use go_holons.Common.Text.{is_empty}
use go_holons.Holonrpc.Server.State.{Server, Frame, M, ◌>>=◌}

-- A frame is a response if it names no method.
abbrev pub is_response : Frame → Bool
is_response f = is_empty f.message.method

abbrev pub responses : List Frame → List Frame
responses = keep is_response

-- What holds of the responses that a step sends, whatever the server's state.
pub record Ends {A : Type 0} (P : List Frame → Type 0) (m : M A) : Type 0 where
  pub ends : (s : Server) → P (responses (m s).2)

abbrev pub IsSilent : {A : Type 0} → M A → Type 0
IsSilent m = Ends (λ fs. fs ≡ []) m

pub by_states :
    {A : Type 0} {P : List Frame → Type 0} {m : M A}
    → ((s : Server) → P (responses (m s).2))
    → Ends P m
by_states h = record { ends = h }

module _ {A B : Type 0} (P : List Frame → Type 0) (m : M A) (f : A → M B) where
  pub Ends->>= : IsSilent m → ((a : A) → Ends P (f a)) → Ends P (m >>= f)
  unfolding ◌>>=◌
  Ends->>= silent h = by_states λ s.
      rw (keep-append is_response (m s).2 (f (m s).0 (m s).1).2, silent.ends s)
        ((h (m s).0).ends (m s).1)

  -- The same with the silence after.
  pub Ends->>=_left : Ends P m → ((a : A) → IsSilent (f a)) → Ends P (m >>= f)
  unfolding ◌>>=◌
  Ends->>=_left h silent = by_states λ s.
      rw
        (
          keep-append is_response (m s).2 (f (m s).0 (m s).1).2,
          (silent (m s).0).ends (m s).1,
          append-nil,
        )
        (h.ends s)

pub Ends-if :
    {A : Type 0} (P : List Frame → Type 0) (b : Bool) (x y : M A)
    → (b ≡ true → Ends P x)
    → (b ≡ false → Ends P y)
    → Ends P (if b then x else y)
Ends-if P true x y h k = h refl
Ends-if P false x y h k = k refl

-- The same where the claim depends on the value that the step returns.
pub record Settles {A : Type 0} (Q : A → List Frame → Type 0) (m : M A) : Type 0 where
  pub settles : (s : Server) → Q (m s).0 (responses (m s).2)

module _ {A B : Type 0} (Q : B → List Frame → Type 0) where
  pub Settles->>= :
      (m : M A) (f : A → M B) → IsSilent m → ((a : A) → Settles Q (f a)) → Settles Q (m >>= f)
  unfolding ◌>>=◌
  Settles->>= m f silent h = record {
    settles = λ s.
        rw (keep-append is_response (m s).2 (f (m s).0 (m s).1).2, silent.ends s)
          ((h (m s).0).settles (m s).1);
  }

pub Settles-if :
    {A : Type 0} (Q : A → List Frame → Type 0) (b : Bool) (x y : M A)
    → (b ≡ true → Settles Q x)
    → (b ≡ false → Settles Q y)
    → Settles Q (if b then x else y)
Settles-if Q true x y h k = h refl
Settles-if Q false x y h k = k refl
