-- ===== src/Holonrpc/Reads/History.antt =====
-- What happens to a pending table while a read loop of pkg/holonrpc runs, as a history of steps.
use go_holons.Common.{
  ℕ, ◌≡◌, ◌≢◌, refl, Option, none, some, List, [], ◌∷◌, ◌++◌, Bool, true, false, not, ◌||◌, is_some,
  arith, All, All-append, if◌then◌else◌, Option-cases, inl, inr,
}
use go_holons.Common.Text.{Text, is_empty, text_eq_iff}
use go_holons.Holonrpc.Message.{Codec, RpcMessage, id_key, error_connection_closed}
use go_holons.Holonrpc.Pending.{Pending}
use go_holons.Holonrpc.Pending.Steps.{
  Event, registers, unregisters, delivers, fails, receives, step, run, first_answer, LeavesAlone,
}
use go_holons.Holonrpc.Reads.{Others, Arrival}
use go_holons.Holonrpc.Server.Request.{check_version, closed_message}

-- What a text frame does to the pending table.
abbrev pub answers : RpcMessage → Option Text → List (Event RpcMessage)
answers m none = []
answers m (some key) = delivers key (check_version m) ∷ []

abbrev pub is_response : RpcMessage → Bool
is_response m = if is_empty m.method then not (is_empty m.result) || is_some m.error else false

abbrev pub heard_message : Option RpcMessage → List (Event RpcMessage)
heard_message none = []
heard_message (some m) = if is_response m then answers m (id_key m.id) else []

abbrev pub heard : Codec → Option Text → List (Event RpcMessage)
heard c none = []
heard c (some payload) = heard_message (c.decode_message payload)

pub run-append :
    {M : Type 0} → (es fs : List (Event M)) (p : Pending M) → run (es ++ fs) p ≡ run fs (run es p)
unfolding run
run-append [] fs p = refl
run-append (e ∷ es) fs p = run-append es fs (step e p)

-- The key is not deleted: its call still waits.
abbrev pub Keeps : Text → Event RpcMessage → Type 0
Keeps k (unregisters j) = j ≢ k
Keeps k _ = Unit {0}

-- What happens while the key is not deleted leaves an answer that comes later.
first_answer-later :
    (k : Text) (es fs : List (Event RpcMessage))
    → All (Keeps k) es
    → is_some (first_answer k fs) ≡ true
    → is_some (first_answer k (es ++ fs)) ≡ true
first_answer-later k [] fs h later = later
first_answer-later k (registers j ∷ es) fs h later = first_answer-later k es fs h.1 later
first_answer-later k (unregisters j ∷ es) fs h later =
    ground (arith, text_eq_iff j k, h.0, first_answer-later k es fs h.1 later)
first_answer-later k (delivers j n ∷ es) fs h later =
    ground (arith, first_answer-later k es fs h.1 later)
first_answer-later k (fails n ∷ es) fs h later = refl
first_answer-later k (receives d ∷ es) fs h later = first_answer-later k es fs h.1 later

-- A frame that is read neither registers a key nor deletes one, and reads no channel.
heard_message-All :
    (P : Event RpcMessage → Type 0) (o : Option RpcMessage)
    → ((k : Text) (m : RpcMessage) → P (delivers k m))
    → All P (heard_message o)
heard_message-All P none p = tt
heard_message-All P (some m) p = elim (Option-cases (id_key m.id)) [
  | inl missing ↦ rw (missing, answers) (ground arith)
  | inr (key, found) ↦ rw (found, answers) (ground (arith, p key (check_version m)))
]

heard-All :
    (c : Codec) (P : Event RpcMessage → Type 0) (frame : Option Text)
    → ((k : Text) (m : RpcMessage) → P (delivers k m))
    → All P (heard c frame)
heard-All c P none p = tt
heard-All c P (some payload) p = heard_message-All P (c.decode_message payload) p

module _ {S : Type 0} where
  -- What happens to the pending table until the loop ends: the doings of the others, each response
  -- that is read, and the error of the closed connection.
  abbrev pub history : Codec → List (Arrival S) → Others S → List (Event RpcMessage)
  history c [] last = last.table ++ fails (closed_message c error_connection_closed) ∷ []
  history c (a ∷ arrivals) last = a.others.table ++ heard c a.frame ++ history c arrivals last

  pub history-LeavesAlone :
      (c : Codec) (k : Text) (ch : ℕ) (arrivals : List (Arrival S)) (last : Others S)
      → All (λ a. All (LeavesAlone k ch) a.others.table) arrivals
      → All (LeavesAlone k ch) last.table
      → All (LeavesAlone k ch) (history c arrivals last)
  history-LeavesAlone c k ch [] last h l = All-append (LeavesAlone k ch) last.table _ l (tt, tt)
  history-LeavesAlone c k ch (a ∷ arrivals) last (h, hs) l =
      All-append (LeavesAlone k ch) (a.others.table ++ heard c a.frame) _
        (All-append (LeavesAlone k ch) a.others.table _ h
          (heard-All c (LeavesAlone k ch) a.frame (λ _ _. tt)))
        (history-LeavesAlone c k ch arrivals last hs l)

  pub history-answers :
      (c : Codec) (k : Text) (arrivals : List (Arrival S)) (last : Others S)
      → All (λ a. All (Keeps k) a.others.table) arrivals
      → All (Keeps k) last.table
      → is_some (first_answer k (history c arrivals last)) ≡ true
  history-answers c k [] last h l = first_answer-later k last.table _ l refl
  history-answers c k (a ∷ arrivals) last (h, hs) l =
      first_answer-later k (a.others.table ++ heard c a.frame) _
        (All-append (Keeps k) a.others.table _ h (heard-All c (Keeps k) a.frame (λ _ _. tt)))
        (history-answers c k arrivals last hs l)
