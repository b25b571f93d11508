-- ===== src/Holonrpc/Routing/Laws.antt =====
-- What a request looks like once `parseRouteHints` of pkg/holonrpc/routing.go has accepted it.
use go_holons.Common.{
  Bool, true, Option, none, some, [], ◌≡◌, ◌≢◌, ◌⊎◌, inl, inr, refl, sym, ap, ◌∙◌, arith,
  Option-cases, if◌then◌else◌,
}
use go_holons.Common.Text.{
  Text, text, text_eq_iff, text_eq-false, text_eq_refl, trim_space, has_prefix, trim_prefix,
}
use go_holons.Common.Map.{Map, lookup, erase, lookup-erase}
use go_holons.Holonrpc.Value.{Value, Object}
use go_holons.Holonrpc.Message.{Codec}
use go_holons.Holonrpc.Routing.{
  Result, ok, err, ◌>>=◌, Route, routing_key, peer_key, fan_out_prefix, route_mode_default,
  route_mode_broadcast_response, route_mode_full_broadcast, is_mode, as_text, check_mode,
  check_peer, take_hint, take_fan_out, check_full_broadcast, check_method, parse_route_hints,
}

-- The block that succeeds has succeeded at its first step: the proof goes on with the parts.
pub >>=-elim {ℓ κ μ} :
    {A : Type ℓ} {B : Type κ} {P : Type μ} (m : Result A) (f : A → Result B) {b : B}
    → (m >>= f) ≡ ok b
    → ((a : A) → m ≡ ok a → f a ≡ ok b → P)
    → P
>>=-elim (ok a) f h k = k a refl h
>>=-elim (err e) f h k = cc

ok-injective {ℓ} : {A : Type ℓ} {a b : A} → ok a ≡ ok b → a ≡ b
ok-injective e = cc

-- A map without one key, and as before at every other.
abbrev pub IsWithout {ℓ} : {V : Type ℓ} → Text → Map V → Map V → Type ℓ
IsWithout k before after =
    (lookup k after ≡ none) × ((j : Text) → j ≢ k → lookup j after ≡ lookup j before)

erase-IsWithout {ℓ} : {V : Type ℓ} (k : Text) (m : Map V) → IsWithout k m (erase k m)
erase-IsWithout k m = (
  rw (lookup-erase k k m, text_eq_refl k),
  λ j differ. rw (lookup-erase k j m, text_eq-false k j (λ e. differ (sym e))),
)

abbrev pub IsMode : Text → Type 0
IsMode mode =
    (mode ≡ route_mode_default)
    ⊎ ((mode ≡ route_mode_broadcast_response) ⊎ (mode ≡ route_mode_full_broadcast))

is_mode-IsMode : (mode : Text) → is_mode mode ≡ true → IsMode mode
unfolding is_mode
is_mode-IsMode mode h = ground (
  arith,
  text_eq_iff mode route_mode_default,
  text_eq_iff mode route_mode_broadcast_response,
  text_eq_iff mode route_mode_full_broadcast,
)

-- What a reserved param gives: nothing where it is absent, else its trimmed text, which holds P.
abbrev pub Asks : Object → Text → (Text → Type 0) → Text → Type 0
Asks params key P got =
    ((lookup key params ≡ none) × (got ≡ []))
    ⊎ ((raw : Text) × (lookup key params ≡ some (Value.string raw))
        × (got ≡ trim_space raw)
        × P got)

as_text-some : (v : Value) (s : Text) → as_text v ≡ some s → v ≡ Value.string s
as_text-some (Value.string t) s e = cc
as_text-some Value.null s e = cc
as_text-some (Value.boolean b) s e = cc
as_text-some (Value.number b) s e = cc
as_text-some (Value.array b) s e = cc
as_text-some (Value.object b) s e = cc

check_mode_sound :
    (c : Codec) (o : Option Text) (got : Text)
    → check_mode c o ≡ ok got
    → (raw : Text) × (o ≡ some raw) × (got ≡ trim_space raw) × IsMode got
unfolding check_mode
check_mode_sound c none got h = cc
check_mode_sound c (some raw) got h =
    (raw, refl, ground arith, ground (arith, is_mode-IsMode (trim_space raw)))

check_peer_sound :
    (o : Option Text) (got : Text)
    → check_peer o ≡ ok got
    → (raw : Text) × (o ≡ some raw) × (got ≡ trim_space raw) × (got ≢ [])
unfolding check_peer
check_peer_sound none got h = cc
check_peer_sound (some raw) got h = (raw, refl, ground arith, ground arith)

-- One block of `parseRouteHints`, over its check of the value.
module _ (key : Text) (check : Option Text → Result Text) (P : Text → Type 0)
    (sound : (o : Option Text) (got : Text)
      → check o ≡ ok got
      → (raw : Text) × (o ≡ some raw) × (got ≡ trim_space raw) × P got) where
  take_hint_sound :
      (params rest : Object) (got : Text)
      → take_hint key check params ≡ ok (got, rest)
      → Asks params key P got × IsWithout key params rest
  unfolding take_hint
  take_hint_sound params rest got h = elim (Option-cases (lookup key params)) [
    | inl absent ↦
        let same : rest ≡ params = ground arith in
        (inl (absent, ground arith), rw same (absent, λ j _. refl))
    | inr (v, found) ↦ >>=-elim (check (as_text v)) _ (rw (found, take_hint) at h) λ hint checked e.
        let (raw, is_text, trimmed, p) = sound (as_text v) hint checked in
        let same : rest ≡ erase key params = cc in
        let same_hint : got ≡ hint = cc in
        (
          inr (
            raw,
            found ∙ ap some (as_text-some v raw is_text),
            same_hint ∙ trimmed,
            rw same_hint p,
          ),
          rw same (erase-IsWithout key params),
        )
  ]

take_fan_out_sound :
    (trimmed inner : Text) (fan_out : Bool)
    → trimmed ≢ []
    → take_fan_out trimmed ≡ ok (fan_out, inner)
    → (has_prefix trimmed fan_out_prefix ≡ fan_out)
      × (inner ≢ [])
      × (inner ≡ (if fan_out then trim_space (trim_prefix trimmed fan_out_prefix) else trimmed))
unfolding take_fan_out
take_fan_out_sound trimmed inner fan_out h e = ground arith

-- What `parseRouteHints` hands to the router.
pub record IsRoute (method : Text) (params : Object) (r : Route) : Type 0 where
  pub named : r.method ≢ []
  pub fans_out : has_prefix (trim_space method) fan_out_prefix ≡ r.fan_out
  pub dispatched : r.method ≡ (
      if r.fan_out
      then trim_space (trim_prefix (trim_space method) fan_out_prefix)
      else trim_space method)
  pub mode : Asks params routing_key IsMode r.hints.mode
  pub peer : Asks params peer_key (λ p. p ≢ []) r.hints.target_peer_id
  pub no_routing : lookup routing_key r.params ≡ none
  pub no_peer : lookup peer_key r.params ≡ none
  pub kept : (k : Text) → k ≢ routing_key → k ≢ peer_key → lookup k r.params ≡ lookup k params
  pub full : r.hints.mode ≡ route_mode_full_broadcast → r.fan_out ≡ true

routing_key-ne-peer_key : routing_key ≢ peer_key
unfolding text
routing_key-ne-peer_key = cc

route_mode_full_broadcast-ne-nil : route_mode_full_broadcast ≢ []
unfolding text
route_mode_full_broadcast-ne-nil = cc

check_method_sound :
    (method trimmed : Text)
    → check_method method ≡ ok trimmed
    → (trimmed ≡ trim_space method) × (trimmed ≢ [])
check_method_sound method trimmed e = ground arith

check_full_broadcast_sound :
    (mode : Text) (fan_out : Bool) (u : Unit {0})
    → check_full_broadcast mode fan_out ≡ ok u
    → mode ≡ route_mode_full_broadcast
    → fan_out ≡ true
unfolding check_full_broadcast
check_full_broadcast_sound mode fan_out u e full =
    ground (arith, text_eq_iff mode route_mode_full_broadcast)

steps-IsRoute :
    (method : Text) (params : Object) (r : Route) (trimmed : Text) (cleaned : Object)
    (mode peer_id : Text) (fan_out : Bool) {inner : Text} {rest : Object}
    → (trimmed ≡ trim_space method) × (trimmed ≢ [])
    → Asks params routing_key IsMode mode × IsWithout routing_key params cleaned
    → Asks cleaned peer_key (λ p. p ≢ []) peer_id × IsWithout peer_key cleaned rest
    → (has_prefix trimmed fan_out_prefix ≡ fan_out)
      × (inner ≢ [])
      × (inner ≡ (if fan_out then trim_space (trim_prefix trimmed fan_out_prefix) else trimmed))
    → (mode ≡ route_mode_full_broadcast → fan_out ≡ true)
    → r ≡ record {
      method = inner;
      fan_out = fan_out;
      params = rest;
      hints = record { target_peer_id = peer_id; mode = mode };
    }
    → IsRoute method params r
steps-IsRoute method params r trimmed cleaned mode peer_id fan_out m a b f full e = rw e (record {
  named = f.1;
  fans_out = rw (← m.0) f.0;
  dispatched = rw (← m.0) f.2;
  mode = a.0;
  peer = rw (← a.1.1 peer_key (λ p. routing_key-ne-peer_key (sym p))) b.0;
  no_routing = b.1.1 routing_key routing_key-ne-peer_key ∙ a.1.0;
  no_peer = b.1.0;
  kept = λ k p q. b.1.1 k q ∙ a.1.1 k p;
  full = full;
})

-- An accepted request has a method, without the fan-out prefix and trimmed; its mode and its peer
-- are the trimmed texts of `_routing` and `_peer`, where these are present; both are gone from the
-- params, and every other param is as it came; a full broadcast fans out.
pub parse_route_hints-IsRoute :
    (c : Codec) (method : Text) (params : Object) (r : Route)
    → parse_route_hints c method params ≡ ok r
    → IsRoute method params r
unfolding parse_route_hints
parse_route_hints-IsRoute c method params r e = >>=-elim (check_method method) _ e λ trimmed e1 f1.
    >>=-elim (take_hint routing_key (check_mode c) params) _ f1 λ (mode, cleaned) e2 f2.
      >>=-elim (take_hint peer_key check_peer cleaned) _ f2 λ (peer_id, rest) e3 f3.
        >>=-elim (take_fan_out trimmed) _ f3 λ (fan_out, inner) e4 f4.
          >>=-elim (check_full_broadcast mode fan_out) _ f4 λ u e5 f5.
            steps-IsRoute method params r trimmed cleaned mode peer_id fan_out
              (check_method_sound method trimmed e1)
              (take_hint_sound routing_key (check_mode c) IsMode (check_mode_sound c) params cleaned
                mode e2)
              (take_hint_sound peer_key check_peer (λ p. p ≢ []) check_peer_sound cleaned rest
                peer_id e3)
              (take_fan_out_sound trimmed inner fan_out (check_method_sound method trimmed e1).1 e4)
              (check_full_broadcast_sound mode fan_out u e5) (sym (ok-injective f5))
