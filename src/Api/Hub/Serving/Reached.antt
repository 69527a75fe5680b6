-- ===== src/Api/Hub/Serving/Reached.antt =====
-- A broadcast reaches the connections that are being served.
use dota_cuck.Prelude.{
  ℕ, zero, suc, ◌+◌, ◌≡◌, refl, ap, ◌∙◌, Bool, true, false, Bool-cases, inl, inr, List, [], ◌∷◌,
  Bytes, map, ◌==◌, ◌&&◌, if◌then◌else◌, arith,
}
use dota_cuck.Api.Events.{PushEvent}
use dota_cuck.Api.Events.Wire.{marshal}
use dota_cuck.Api.Hub.{new_hub, broadcast_event}
use dota_cuck.Api.Hub.Delivery.{joins, leaves, writes_to, writes, writes-run}
use dota_cuck.Api.Hub.Serving.{
  Serving, no_connection, ServeStep, refuses, accepts, reads, ends, Served, here, after, texts_to,
}

-- The hub's clients are those whose handlers run, each once.
abbrev IsInStep : Serving → Type 0
IsInStep s =
    (c : ℕ) (ev : PushEvent) → writes_to c (broadcast_event s.hub ev) ≡ writes (s.running c)

ServeStep-IsInStep : (s t : Serving) → ServeStep s t → IsInStep s → IsInStep t
ServeStep-IsInStep s t (refuses e) same = rw e same
ServeStep-IsInStep s t (accepts e) same =
    rw e (λ c ev. writes-run s.hub (joins s.made ∷ []) c ev (s.running c) (same c ev))
ServeStep-IsInStep s t (reads c running e) same = rw e same
ServeStep-IsInStep s t (ends d running e) same =
    rw e (λ c ev. writes-run s.hub (leaves d ∷ []) c ev (s.running c) (same c ev))

Served-IsInStep : {s : Serving} → Served no_connection s → IsInStep s
unfolding no_connection new_hub broadcast_event
Served-IsInStep here c ev = refl
Served-IsInStep (after {t = t} {u = u} served s) c ev =
    ServeStep-IsInStep t u s (Served-IsInStep served) c ev

copies : ℕ → Bytes → List Bytes
copies zero text = []
copies (suc n) text = text ∷ copies n text

one_more : (n : ℕ) → suc n ≡ 1 + n
one_more n = omega arith

none_more : (n : ℕ) → n ≡ 0 + n
none_more n = omega arith

copies-writes : (b : Bool) (text : Bytes) → copies (writes b) text ≡ (if b then text ∷ [] else [])
unfolding copies
copies-writes true text = refl
copies-writes false text = refl

arriving :
    (b arrives : Bool) (text : Bytes)
    → (if arrives then copies (writes b) text else []) ≡ (if b && arrives then text ∷ [] else [])
arriving true true text = copies-writes true text
arriving true false text = refl
arriving false true text = copies-writes false text
arriving false false text = refl

texts_to-broadcast :
    (arrives : ℕ → Bool) (c : ℕ) (ev : PushEvent) (xs : List ℕ)
    → texts_to arrives c (map (λ x. (x, ev)) xs)
      ≡ (if arrives c then copies (writes_to c (map (λ x. (x, ev)) xs)) (marshal ev) else [])
unfolding texts_to copies
texts_to-broadcast arrives c ev [] = ground arith
texts_to-broadcast arrives c ev (x ∷ xs) =
    let rest = texts_to-broadcast arrives c ev xs in
    elim (Bool-cases (arrives c)) [
      | inl fine ↦
          let rest' = rw fine at rest in
          elim (Bool-cases (x == c)) [
            | inl same ↦
                rw (same, fine)
                  (ap (λ more. marshal ev ∷ more) rest'
                    ∙ ap (λ n. copies n (marshal ev))
                        (one_more (writes_to c (map (λ y. (y, ev)) xs))))
            | inr other ↦
                rw (other, fine)
                  (rest'
                    ∙ ap (λ n. copies n (marshal ev))
                        (none_more (writes_to c (map (λ y. (y, ev)) xs))))
          ]
      | inr fails ↦
          let rest' = rw fails at rest in
          elim (Bool-cases (x == c)) [
            | inl same ↦ rw (same, fails) rest'
            | inr other ↦ rw (other, fails) rest'
          ]
    ]

-- However connections were opened, read from and ended: a broadcast brings the event's text once to
-- each client that had joined and not left when it took its snapshot and whose write gives no error,
-- whichever other writes fail, and nothing to any other client. Each write returns.
pub broadcast_reaches_served :
    (s : Serving) (arrives : ℕ → Bool) (c : ℕ) (ev : PushEvent)
    → Served no_connection s
    → texts_to arrives c (broadcast_event s.hub ev)
      ≡ (if s.running c && arrives c then marshal ev ∷ [] else [])
unfolding broadcast_event copies
broadcast_reaches_served s arrives c ev served =
    texts_to-broadcast arrives c ev s.hub.clients
    ∙ ap (λ n. if arrives c then copies n (marshal ev) else []) (Served-IsInStep served c ev)
    ∙ arriving (s.running c) (arrives c) (marshal ev)
