-- ===== src/Workers/Streams/Current.antt =====
-- Which sessions can be the current worker.
use dota_cuck.Prelude.{
  ℕ, ◌<◌, ◌≡◌, ◌≢◌, true, false, some, arith, ◌==◌, Option-cases, inl, inr, ◌∙◌,
}
use dota_cuck.Workers.Registry.{Registry, new_registry, unregister}
use dota_cuck.Workers.Server.{
  new_server, begin_session, end_session, leave_friends, leave_link, add_link,
}
use dota_cuck.Workers.Streams.{
  System, Step, connects, hears, disconnects, writes, fails, stops, sends, adds_friends,
  leaves_friends, takes_friends, adds_link, leaves_link, takes_link, Reach, here, then_step, start,
}
use dota_cuck.Workers.Streams.Order.{handle_inv, take_friends_inv, take_link_inv}

unregister_inv :
    (r : Registry) (w v : ℕ)
    → (unregister r w).current ≡ some v
    → (r.current ≡ some v) × ((w == v) ≡ false)
unfolding unregister
unregister_inv r w v h = elim (Option-cases r.current) [
  | inl idle ↦ absurd (ground arith)
  | inr (u, busy) ↦ (ground arith, ground arith)
]

module _ (C : Type 0) where
  record IsCurrent (s : System C) : Type 0 where
    alive : (w : ℕ) → s.server.reg.current ≡ some w → (s.streams w).live ≡ true
    made : (w : ℕ) → (s.streams w).live ≡ true → w < s.server.made

  -- A step that changes neither the registry, nor the workers made, nor which streams are open.
  kept-IsCurrent :
      (s t : System C)
      → t.server.reg ≡ s.server.reg
      → t.server.made ≡ s.server.made
      → ((w : ℕ) → (t.streams w).live ≡ (s.streams w).live)
      → IsCurrent s
      → IsCurrent t
  kept-IsCurrent s t same_reg same_made same_live o = record {
    alive = λ w h. same_live w ∙ o.alive w (ground arith);
    made = λ w h. ground (arith, o.made w, same_live w);
  }

  Step-IsCurrent : {s t : System C} → Step C s t → IsCurrent s → IsCurrent t
  unfolding begin_session end_session leave_friends leave_link add_link
  Step-IsCurrent {s} {t} (connects e) o = record {
    alive = λ w h. rw e (ground (arith, o.alive w));
    made = λ w h. ground (arith, o.made w);
  }
  Step-IsCurrent {s} {t} (hears w ev server calls live h e) o =
      let (_, made, now) = handle_inv C s.server server w ev calls h in
      record {
        alive = λ v cur. elim (now v (ground arith)) [
          | inl before ↦ ground (arith, o.alive v)
          | inr same ↦ ground arith
        ];
        made = λ v alive. ground (arith, o.made v);
      }
  Step-IsCurrent {s} {t} (disconnects w live e) o = record {
    alive = λ v cur.
        let (before, other) = unregister_inv s.server.reg w v (ground arith) in
        ground (arith, o.alive v);
    made = λ v alive. ground (arith, o.made v);
  }
  Step-IsCurrent {s} {t} (writes w cmd ws live runs h e) o =
      kept-IsCurrent s t (ground arith) (ground arith) (λ v. ground arith) o
  Step-IsCurrent {s} {t} (fails w cmd ws runs h e) o =
      kept-IsCurrent s t (ground arith) (ground arith) (λ v. ground arith) o
  Step-IsCurrent {s} {t} (stops w e) o =
      kept-IsCurrent s t (ground arith) (ground arith) (λ v. ground arith) o
  Step-IsCurrent {s} {t} (sends w cmd ws h e) o =
      kept-IsCurrent s t (ground arith) (ground arith) (λ v. ground arith) o
  Step-IsCurrent {s} {t} (adds_friends id e) o =
      kept-IsCurrent s t (ground arith) (ground arith) (λ v. ground arith) o
  Step-IsCurrent {s} {t} (leaves_friends id e) o =
      kept-IsCurrent s t (ground arith) (ground arith) (λ v. ground arith) o
  Step-IsCurrent {s} {t} (takes_friends id c res server h e) o =
      let (_, reg, made) = take_friends_inv C s.server server id c res h in
      kept-IsCurrent s t (ground arith) (ground arith) (λ v. ground arith) o
  Step-IsCurrent {s} {t} (adds_link id g q e) o =
      kept-IsCurrent s t (ground arith) (ground arith) (λ v. ground arith) o
  Step-IsCurrent {s} {t} (leaves_link id e) o =
      kept-IsCurrent s t (ground arith) (ground arith) (λ v. ground arith) o
  Step-IsCurrent {s} {t} (takes_link id c res server h e) o =
      let (_, reg, made) = take_link_inv C s.server server id c res h in
      kept-IsCurrent s t (ground arith) (ground arith) (λ v. ground arith) o

  start-IsCurrent : IsCurrent (start C)
  unfolding start new_server new_registry
  start-IsCurrent = record {
    alive = λ w h. absurd (ground arith);
    made = λ w h. absurd (ground arith);
  }

  Reach-IsCurrent : {s t : System C} → Reach C s t → IsCurrent s → IsCurrent t
  Reach-IsCurrent here o = o
  Reach-IsCurrent (then_step r st) o = Step-IsCurrent st (Reach-IsCurrent r o)

  current_is_live :
      (s : System C) (w : ℕ)
      → Reach C (start C) s
      → s.server.reg.current ≡ some w
      → (s.streams w).live ≡ true
  current_is_live s w r h = (Reach-IsCurrent r start-IsCurrent).alive w h

  -- A session that was begun and has unregistered.
  abbrev pub HasEnded : System C → ℕ → Type 0
  HasEnded s w = (w < s.server.made) × ((s.streams w).live ≡ false)

  kept-HasEnded :
      (s t : System C) (w : ℕ)
      → t.server.made ≡ s.server.made
      → (t.streams w).live ≡ (s.streams w).live
      → HasEnded s w
      → HasEnded t w
  kept-HasEnded s t w same_made same_live (before, dead) = (ground arith, ground arith)

  Step-HasEnded : {s t : System C} (v : ℕ) → Step C s t → HasEnded s v → HasEnded t v
  unfolding begin_session end_session leave_friends leave_link add_link
  Step-HasEnded {s} {t} v (connects e) (before, dead) = (ground arith, ground arith)
  Step-HasEnded {s} {t} v (hears w ev server calls live h e) o =
      let (_, made, now) = handle_inv C s.server server w ev calls h in
      kept-HasEnded s t v (ground arith) (ground arith) o
  Step-HasEnded {s} {t} v (disconnects w live e) (before, dead) = (ground arith, ground arith)
  Step-HasEnded {s} {t} v (takes_friends id c res server h e) o =
      let (_, reg, made) = take_friends_inv C s.server server id c res h in
      kept-HasEnded s t v (ground arith) (ground arith) o
  Step-HasEnded {s} {t} v (takes_link id c res server h e) o =
      let (_, reg, made) = take_link_inv C s.server server id c res h in
      kept-HasEnded s t v (ground arith) (ground arith) o
  Step-HasEnded {s} {t} v (writes w cmd ws live runs h e) o =
      kept-HasEnded s t v (ground arith) (ground arith) o
  Step-HasEnded {s} {t} v (fails w cmd ws runs h e) o =
      kept-HasEnded s t v (ground arith) (ground arith) o
  Step-HasEnded {s} {t} v (stops w e) o = kept-HasEnded s t v (ground arith) (ground arith) o
  Step-HasEnded {s} {t} v (sends w cmd ws h e) o =
      kept-HasEnded s t v (ground arith) (ground arith) o
  Step-HasEnded {s} {t} v (adds_friends id e) o =
      kept-HasEnded s t v (ground arith) (ground arith) o
  Step-HasEnded {s} {t} v (leaves_friends id e) o =
      kept-HasEnded s t v (ground arith) (ground arith) o
  Step-HasEnded {s} {t} v (adds_link id g q e) o =
      kept-HasEnded s t v (ground arith) (ground arith) o
  Step-HasEnded {s} {t} v (leaves_link id e) o = kept-HasEnded s t v (ground arith) (ground arith) o

  Reach-HasEnded : {s t : System C} (v : ℕ) → Reach C s t → HasEnded s v → HasEnded t v
  Reach-HasEnded v here o = o
  Reach-HasEnded v (then_step r st) o = Step-HasEnded v st (Reach-HasEnded v r o)

  Reach-trans : {s t u : System C} → Reach C s t → Reach C t u → Reach C s u
  Reach-trans st here = st
  Reach-trans st (then_step tu step) = then_step (Reach-trans st tu) step

  -- In every interleaving, a session that has unregistered is not the current worker, neither then
  -- nor at any later time, whichever sessions begin, register and end meanwhile.
  pub ended_is_never_current :
      (s t : System C) (w : ℕ)
      → Reach C (start C) s
      → HasEnded s w
      → Reach C s t
      → t.server.reg.current ≢ some w
  ended_is_never_current s t w r ended later current =
      let (before, dead) = Reach-HasEnded w later ended in
      let alive = current_is_live t w (Reach-trans r later) current in absurd (ground arith)
