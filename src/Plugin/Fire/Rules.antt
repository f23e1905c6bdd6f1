-- ===== src/Plugin/Fire/Rules.antt =====
-- What the loop over the handlers does for any kind of event.
use vine.Base.{
  Bool, true, false, List, [], ◌∷◌, ◌++◌, map, Bool-cases, ◌≡◌, ◌⊎◌, ◌↔◌, refl, sym, ap, ◌∙◌, inl,
  inr, append_assoc, append-nil,
}
use vine.Plugin.Api.{Event}
use vine.Plugin.Handlers.{RegisteredEventHandler}
use vine.Plugin.Fire.{Answer, handled, Call, Plugins, dispatch}

-- The calls that were made since `calls`.
pub Made : List Call → List Call → List Call → Type 0
Made calls after made = after ≡ calls ++ made

-- The answer is an event of the kind, cancelled.
unfoldable pub Cancels : {E : Type 0} → (E → Event) → (E → Bool) → Answer → Type 0
Cancels {E} wrap cancelled a = (r : E) × (a ≡ handled (wrap r)) × (cancelled r ≡ true)

module _ (handle_event : Plugins) {E : Type 0} (wrap : E → Event) (cancelled : E → Bool) where
  -- None of the calls that were made behind `calls` was answered by cancelling.
  unfoldable pub Silent : List Call → List Call → Type 0
  Silent calls [] = Unit
  Silent calls (c ∷ made) =
      (¬ Cancels wrap cancelled (handle_event calls c.handler c.event))
      × Silent (calls ++ c ∷ []) made

  -- The calls that were made behind `calls` for an event with the handlers `hs`, and whether it ends
  -- up cancelled: one call to each of them, none of which cancels; or calls to those up to one whose
  -- answer cancels the event, where no answer before did, and no call to those behind it.
  unfoldable pub Stops : List RegisteredEventHandler → List Call → List Call → Bool → Type 0
  Stops hs calls made ends =
      ((ends ≡ false) × (map (λ c. c.handler) made ≡ hs) × Silent calls made)
      ⊎ ((ends ≡ true)
          × (front : List Call) × (last : Call) × (rest : List RegisteredEventHandler) × (made
              ≡ front ++ last ∷ [])
          × (hs ≡ map (λ c. c.handler) front ++ last.handler ∷ rest)
          × Silent calls front
          × Cancels wrap cancelled (handle_event (calls ++ front) last.handler last.event))

  Stops-cons :
      (c : Call) (hs : List RegisteredEventHandler) (calls made : List Call) (b : Bool)
      → ¬ Cancels wrap cancelled (handle_event calls c.handler c.event)
      → Stops hs (calls ++ c ∷ []) made b
      → Stops (c.handler ∷ hs) calls (c ∷ made) b
  unfolding Stops Silent
  Stops-cons c hs calls made b quiet (inl (e, p, silent)) =
      inl (e, ap (◌∷◌ c.handler) p, (quiet, silent))
  Stops-cons c hs calls made b quiet (inr (e, front, last, rest, p, q, silent, cancels)) = inr (
    e,
    c ∷ front,
    last,
    rest,
    ap (◌∷◌ c) p,
    ap (◌∷◌ c.handler) q,
    (quiet, silent),
    rw (append_assoc calls (c ∷ []) front) at cancels,
  )

module _ (handle_event : Plugins) {E : Type 0} (wrap : E → Event)
    (merge : E → Answer → E × Bool) where
  pub dispatch-keeps :
      {B : Type 0} (field : E → B)
      → ((e : E) (a : Answer) → field (merge e a).0 ≡ field e)
      → (calls : List Call) (hs : List RegisteredEventHandler) (e : E)
      → field (dispatch handle_event wrap merge calls hs e).1 ≡ field e
  unfolding dispatch
  dispatch-keeps field keep calls [] e = refl
  dispatch-keeps field keep calls (h ∷ hs) e =
      let a = handle_event calls h (wrap e) in
      let now = calls ++ record { handler = h; event = wrap e } ∷ [] in
      elim (Bool-cases (merge e a).1) [
        | inl t ↦ rw t (keep e a)
        | inr f ↦ rw f (dispatch-keeps field keep now hs (merge e a).0 ∙ keep e a)
      ]

  pub dispatch-Stops :
      (cancelled : E → Bool)
      → ((e : E) (a : Answer)
          → cancelled e ≡ false
          → ((merge e a).1 ≡ cancelled (merge e a).0)
            × ((merge e a).1 ≡ true ↔ Cancels wrap cancelled a))
      → (calls : List Call) (hs : List RegisteredEventHandler) (e : E) → cancelled e ≡ false
      → (made : List Call) × Made calls (dispatch handle_event wrap merge calls hs e).0 made
        × Stops handle_event wrap cancelled hs calls made
            (cancelled (dispatch handle_event wrap merge calls hs e).1)
  unfolding dispatch Stops Silent Made
  dispatch-Stops cancelled law calls [] e f = ([], sym (append-nil calls), inl (f, refl, tt))
  dispatch-Stops cancelled law calls (h ∷ hs) e f =
      let a = handle_event calls h (wrap e) in
      let c : Call = record { handler = h; event = wrap e } in
      let (flag, cancels) = law e a f in
      elim (Bool-cases (merge e a).1) [
        | inl t ↦
            let why = rw (← append-nil calls) at (cancels.0 t) in
            rw t (c ∷ [], refl, inr (sym flag ∙ t, [], c, hs, refl, refl, tt, why))
        | inr g ↦
            let now = calls ++ c ∷ [] in
            let (made, m, s) = dispatch-Stops cancelled law now hs (merge e a).0 (sym flag ∙ g) in
            rw g (
              c ∷ made,
              m ∙ append_assoc calls (c ∷ []) made,
              Stops-cons handle_event wrap cancelled c hs calls made _
                  (λ y. absurd (let t = cancels.1 y in cc)) s,
            )
      ]
