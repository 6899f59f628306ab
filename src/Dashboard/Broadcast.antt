-- ===== src/Dashboard/Broadcast.antt =====
-- dashboard/state.py: `Broadcaster`. A client is an object with an identity; `alive` says whether
-- sending to it succeeds. Between two
-- sends no client registers or leaves.
use crypto_arb_engine.Prelude.{
  ◌≡◌, refl, ◌∙◌, ap, Bool, true, false, not, List, [], ◌∷◌, ◌++◌, filter, if◌then◌else◌, All,
  Bool-cases, inl, inr,
}
use crypto_arb_engine.Prelude.Dict.{Key}

module _ {A : Type 0} ⦃id : Key A⦄ where
  unfoldable pub register : A → List A → List A
  register websocket clients = clients ++ (websocket ∷ [])

  -- `list.remove`, and nothing where the client is not there.
  unfoldable pub unregister : A → List A → List A
  unregister websocket [] = []
  unregister websocket (c ∷ clients) =
      let rest = unregister websocket clients in if id.same c websocket then clients else c ∷ rest

  unfoldable pub unregister_all : List A → List A → List A
  unfolding unregister
  unregister_all [] clients = clients
  unregister_all (d ∷ dead) clients = unregister_all dead (unregister d clients)

  -- `publish`: the clients afterwards.
  unfoldable pub publish : (A → Bool) → List A → List A
  unfolding unregister_all
  publish alive clients = unregister_all (filter (λ c. not (alive c)) clients) clients

  keep_alive :
      (alive : A → Bool) (c : A) (dead clients : List A)
      → alive c ≡ true
      → All (λ d. alive d ≡ false) dead
      → unregister_all dead (c ∷ clients) ≡ c ∷ unregister_all dead clients
  unfolding unregister_all unregister
  keep_alive alive c [] clients h ds = refl
  keep_alive alive c (d ∷ dead) clients h (k, ks) = elim (Bool-cases (id.same c d)) [
    | inl e ↦ cc (ap alive ((id.same_iff c d).0 e))
    | inr e ↦ rw e (keep_alive alive c dead (unregister d clients) h ks)
  ]

  filter_dead :
      (alive : A → Bool) (clients : List A)
      → All (λ d. alive d ≡ false) (filter (λ c. not (alive c)) clients)
  filter_dead alive [] = tt
  filter_dead alive (c ∷ clients) = elim (Bool-cases (alive c)) [
    | inl e ↦ rw e (filter_dead alive clients)
    | inr e ↦ rw e (e, filter_dead alive clients)
  ]

  -- After an event is published just the clients that could be reached are left, in their order, also
  -- where a client was registered twice.
  pub publish-eq-filter :
      (alive : A → Bool) (clients : List A) → publish alive clients ≡ filter alive clients
  unfolding publish unregister_all unregister
  publish-eq-filter alive [] = refl
  publish-eq-filter alive (c ∷ clients) = elim (Bool-cases (alive c)) [
    | inl e ↦ rw e (
        keep_alive alive c (filter (λ d. not (alive d)) clients) clients e
          (filter_dead alive clients)
        ∙ ap (λ rest. c ∷ rest) (publish-eq-filter alive clients))
    | inr e ↦ rw (e, (id.same_iff c c).1 refl) (publish-eq-filter alive clients)
  ]
