-- ===== src/Risk/Manager/Deployed.antt =====
-- Deployed capital: what `commit` takes is what `_release` gives back.
use crypto_arb_engine.Prelude.{
  ℕ, ◌==◌, ◌≡◌, refl, ◌∙◌, ap, Bool, false, List, [], ◌∷◌, String, Bool-cases, inl, inr, arith,
  if◌then◌else◌,
}
use crypto_arb_engine.Prelude.Dict.{Dict, string_key, get, lookup, set, lookup-set}
use crypto_arb_engine.Float.{Float, ◌⊕◌, ◌⊖◌, nought, max, IsNonneg, IsOrdered, IsRounded, IsExact}
use crypto_arb_engine.Float.Bounds.{max_of_nonneg, max_nought_sub}
use crypto_arb_engine.Core.Types.{Leg, Opportunity}
use crypto_arb_engine.Risk.Manager.Defs.{
  RiskManager, deploy, undeploy, commit, release, record_counters, roll_day_if_needed,
  record_result,
}

module _ {F : Type 0} ⦃f : Float F⦄ where
  get-set :
      (k j : String) (v : F) (d : Dict String F)
      → get nought j (set k v d) ≡ (if string_key.same k j then v else get nought j d)
  get-set k j v d = ground (arith, lookup-set k j v d)

  -- What a loop over the legs does to the figure of one venue.
  abbrev up : F → List (Leg F) → String → F → F
  up a [] v x = x
  up a (l ∷ legs) v x = up a legs v (if string_key.same l.venue_id v then x ⊕ a else x)

  abbrev down : F → List (Leg F) → String → F → F
  down a [] v x = x
  down a (l ∷ legs) v x =
      down a legs v (if string_key.same l.venue_id v then max nought (x ⊖ a) else x)

  get-deploy :
      (a : F) (legs : List (Leg F)) (v : String) (d : Dict String F)
      → get nought v (deploy a legs d) ≡ up a legs v (get nought v d)
  unfolding deploy
  get-deploy a [] v d = refl
  get-deploy a (l ∷ legs) v d =
      get-deploy a legs v _
      ∙ ap (up a legs v)
          (get-set l.venue_id v _ d ∙ (ground (arith, string_key.same_iff l.venue_id v)))

  get-undeploy :
      (a : F) (legs : List (Leg F)) (v : String) (d : Dict String F)
      → get nought v (undeploy a legs d) ≡ down a legs v (get nought v d)
  unfolding undeploy
  get-undeploy a [] v d = refl
  get-undeploy a (l ∷ legs) v d =
      get-undeploy a legs v _
      ∙ ap (down a legs v)
          (get-set l.venue_id v _ d ∙ (ground (arith, string_key.same_iff l.venue_id v)))

  up-add :
      (a : F) (legs : List (Leg F)) (v : String) (x : F) → up a legs v (x ⊕ a) ≡ up a legs v x ⊕ a
  up-add a [] v x = refl
  up-add a (l ∷ legs) v x = elim (Bool-cases (string_key.same l.venue_id v)) [
    | inl e ↦ rw e (up-add a legs v (x ⊕ a))
    | inr e ↦ rw e (up-add a legs v x)
  ]

  module _ (ordered : IsOrdered F) (rounded : IsRounded F) (exact : IsExact F) where
    up-IsNonneg :
        (a : F) (legs : List (Leg F)) (v : String) (x : F)
        → IsNonneg a
        → IsNonneg x
        → IsNonneg (up a legs v x)
    up-IsNonneg a [] v x ha hx = hx
    up-IsNonneg a (l ∷ legs) v x ha hx = elim (Bool-cases (string_key.same l.venue_id v)) [
      | inl e ↦ rw e (up-IsNonneg a legs v (x ⊕ a) ha (rounded.add_nonneg x a hx ha))
      | inr e ↦ rw e (up-IsNonneg a legs v x ha hx)
    ]

    -- Taking back one commitment from a figure that is not negative.
    take_back : (a y : F) → IsNonneg y → max nought (y ⊕ a ⊖ a) ≡ y
    take_back a y h = ap (max nought) (exact.add-sub y a) ∙ max_of_nonneg ordered exact y h

    down-up :
        (a : F) (legs : List (Leg F)) (v : String) (x : F)
        → IsNonneg a
        → IsNonneg x
        → down a legs v (up a legs v x) ≡ x
    down-up a [] v x ha hx = refl
    down-up a (l ∷ legs) v x ha hx = elim (Bool-cases (string_key.same l.venue_id v)) [
      | inl e ↦ rw e (
          ap (λ (y : F). down a legs v (max nought (y ⊖ a))) (up-add a legs v x)
          ∙ ap (down a legs v) (take_back a (up a legs v x) (up-IsNonneg a legs v x ha hx))
          ∙ down-up a legs v x ha hx)
      | inr e ↦ rw e (down-up a legs v x ha hx)
    ]

    down_nought :
        (a : F) (legs : List (Leg F)) (v : String) → IsNonneg a → down a legs v nought ≡ nought
    down_nought a [] v ha = refl
    down_nought a (l ∷ legs) v ha = elim (Bool-cases (string_key.same l.venue_id v)) [
      | inl e ↦
          rw e (
            ap (down a legs v) (max_nought_sub ordered rounded exact a ha)
            ∙ down_nought a legs v ha)
      | inr e ↦ rw e (down_nought a legs v ha)
    ]

    -- One entry that goes up by `a` and down again.
    get-up_down :
        (k s : String) (a : F) (d : Dict String F)
        → IsNonneg (get nought k d)
        → let d' = set k (get nought k d ⊕ a) d in
          get nought s (set k (max nought (get nought k d' ⊖ a)) d') ≡ get nought s d
    get-up_down k s a d h =
        let old = get nought k d in
        let restored = take_back a old h in
        rw (get-set k s, get-set k k, get-set k s, (string_key.same_iff k k).1 refl)
          (elim (Bool-cases (string_key.same k s)) [
            | inl e ↦
                rw e
                  (restored ∙ ap (λ (j : String). get nought j d) ((string_key.same_iff k s).0 e))
            | inr e ↦ rw e
          ])

    -- No figure of deployed capital is below zero.
    pub record IsFunded (rm : RiskManager F) : Type 0 where
      pub strategies_nonneg : (s : String) → IsNonneg (get nought s rm.strategy_deployed_usd)
      pub venues_nonneg : (v : String) → IsNonneg (get nought v rm.venue_deployed_usd)

    -- The two managers report the same deployed capital for every strategy and every venue.
    pub record SameDeployed (a b : RiskManager F) : Type 0 where
      pub same_strategies :
          (s : String) → get nought s a.strategy_deployed_usd ≡ get nought s b.strategy_deployed_usd
      pub same_venues :
          (v : String) → get nought v a.venue_deployed_usd ≡ get nought v b.venue_deployed_usd

    -- Where sums are exact, the size is not negative and no deployed figure is, releasing what was
    -- just committed restores the deployed capital of every strategy and venue, also where two legs
    -- share a venue.
    pub release-commit :
        (o : Opportunity F) (rm : RiskManager F)
        → IsNonneg o.max_size_usd
        → IsFunded rm
        → SameDeployed (release o (commit o rm)) rm
    unfolding release commit
    release-commit o rm ha h = record {
      same_strategies = λ s.
          get-up_down o.strategy s o.max_size_usd rm.strategy_deployed_usd
            (h.strategies_nonneg o.strategy);
      same_venues = λ v.
          get-undeploy o.max_size_usd o.legs v _
          ∙ ap (down o.max_size_usd o.legs v)
              (get-deploy o.max_size_usd o.legs v rm.venue_deployed_usd)
          ∙ down-up o.max_size_usd o.legs v _ ha (h.venues_nonneg v);
    }

    -- Nothing is deployed.
    pub record IsIdle (rm : RiskManager F) : Type 0 where
      pub strategies_idle : (s : String) → get nought s rm.strategy_deployed_usd ≡ nought
      pub venues_idle : (v : String) → get nought v rm.venue_deployed_usd ≡ nought

    idle-IsFunded : (rm : RiskManager F) → IsIdle rm → IsFunded rm
    idle-IsFunded rm h = record {
      strategies_nonneg = λ s. rw (h.strategies_idle s) (ordered.lt_irrefl nought);
      venues_nonneg = λ v. rw (h.venues_idle v) (ordered.lt_irrefl nought);
    }

    pub release-commit-IsIdle :
        (o : Opportunity F) (rm : RiskManager F)
        → IsNonneg o.max_size_usd
        → IsIdle rm
        → IsIdle (release o (commit o rm))
    release-commit-IsIdle o rm ha h =
        let same = release-commit o rm ha (idle-IsFunded rm h) in
        record {
          strategies_idle = λ s. same.same_strategies s ∙ h.strategies_idle s;
          venues_idle = λ v. same.same_venues v ∙ h.venues_idle v;
        }

    -- Releasing what was never committed leaves an idle manager idle.
    release-IsIdle :
        (o : Opportunity F) (rm : RiskManager F)
        → IsNonneg o.max_size_usd
        → IsIdle rm
        → IsIdle (release o rm)
    unfolding release
    release-IsIdle o rm ha h = record {
      strategies_idle = λ s.
          get-set o.strategy s _ rm.strategy_deployed_usd
          ∙ rw
              (h.strategies_idle o.strategy, max_nought_sub ordered rounded exact o.max_size_usd ha)
              (ground (arith, h.strategies_idle s));
      venues_idle = λ v.
          get-undeploy o.max_size_usd o.legs v rm.venue_deployed_usd
          ∙ rw (h.venues_idle v) (down_nought o.max_size_usd o.legs v ha);
    }

    counters-IsIdle :
        (pnl : F) (ok : Bool) (rm : RiskManager F) → IsIdle rm → IsIdle (record_counters pnl ok rm)
    unfolding record_counters
    counters-IsIdle pnl ok rm h = record {
      strategies_idle = h.strategies_idle;
      venues_idle = h.venues_idle;
    }

    release_counters :
        (o : Opportunity F) (pnl : F) (ok : Bool) (rm : RiskManager F)
        → IsIdle (release o rm)
        → IsIdle (release o (record_counters pnl ok rm))
    unfolding record_counters release
    release_counters o pnl ok rm h = record {
      strategies_idle = h.strategies_idle;
      venues_idle = h.venues_idle;
    }

    fresh_day-IsIdle :
        (today : ℕ) (rm : RiskManager F)
        → (today == rm.current_day) ≡ false
        → IsIdle (roll_day_if_needed today rm)
    unfolding roll_day_if_needed lookup
    fresh_day-IsIdle today rm e =
        rw e (record { strategies_idle = λ s. refl; venues_idle = λ v. refl })

    -- Recording a trade leaves the manager idle if releasing its capital would.
    pub released-IsIdle :
        (today : ℕ) (o : Opportunity F) (pnl : F) (ok : Bool) (rm : RiskManager F)
        → IsNonneg o.max_size_usd
        → IsIdle (release o rm)
        → IsIdle (record_result today o pnl ok rm)
    unfolding record_result roll_day_if_needed
    released-IsIdle today o pnl ok rm ha h = elim (Bool-cases (today == rm.current_day)) [
      | inl e ↦
          release_counters o pnl ok (roll_day_if_needed today rm) (rw (e, roll_day_if_needed) h)
      | inr e ↦
          release-IsIdle o _ ha
            (counters-IsIdle pnl ok (roll_day_if_needed today rm) (fresh_day-IsIdle today rm e))
    ]

    pub roll_day-IsIdle :
        (today : ℕ) (rm : RiskManager F) → IsIdle rm → IsIdle (roll_day_if_needed today rm)
    unfolding roll_day_if_needed
    roll_day-IsIdle today rm h = elim (Bool-cases (today == rm.current_day)) [
      | inl e ↦ rw (e, roll_day_if_needed) h
      | inr e ↦ fresh_day-IsIdle today rm e
    ]

    -- Only the two dictionaries count for what is released.
    pub release_same-IsIdle :
        (o : Opportunity F) (a b : RiskManager F)
        → a.strategy_deployed_usd ≡ b.strategy_deployed_usd
        → a.venue_deployed_usd ≡ b.venue_deployed_usd
        → IsIdle (release o b)
        → IsIdle (release o a)
    unfolding release
    release_same-IsIdle o a b p q h = record {
      strategies_idle = λ s. rw p (h.strategies_idle s);
      venues_idle = λ v. rw q (h.venues_idle v);
    }

    -- Where sums are exact, a trade that is recorded, on the day that it was committed or on a later
    -- one, leaves no capital deployed if none was before: the caps cannot ratchet up.
    pub record_result-IsIdle :
        (today : ℕ) (o : Opportunity F) (pnl : F) (ok : Bool) (rm : RiskManager F)
        → IsNonneg o.max_size_usd
        → IsIdle rm
        → IsIdle (record_result today o pnl ok (commit o rm))
    record_result-IsIdle today o pnl ok rm ha h =
        released-IsIdle today o pnl ok (commit o rm) ha (release-commit-IsIdle o rm ha h)
