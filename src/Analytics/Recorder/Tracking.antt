-- ===== src/Analytics/Recorder/Tracking.antt =====
-- What `OpportunityRecorder` keeps in memory.
use crypto_arb_engine.Prelude.{
  ◌≡◌, refl, ◌∙◌, ap, subst, ℕ, suc, ◌≤◌, true, Option, none, some, List, [], ◌∷◌, ◌++◌, map,
  length, length-append, All, All-append, All-imp, Bool-cases, inl, inr, arith, ltb, ==_iff,
}
use crypto_arb_engine.Prelude.Dict.{Dict, lookup, set, remove, set_absent}
use crypto_arb_engine.Float.{Float}
use crypto_arb_engine.Core.Types.{Mode, Opportunity}
use crypto_arb_engine.Analytics.Recorder.{
  id_key, Recorder, Call, evict, evict_first, record_opportunity, attach_at, attach_trade_result,
  flush, keep_decays, without_first, check_after_delay, call, calls,
}

-- Each id with itself.
abbrev pub own_ids : List ℕ → Dict ℕ ℕ
own_ids ids = map (λ n. (n, n)) ids

unknown : (n : ℕ) (ids : List ℕ) → All (λ i. suc i ≤ n) ids → lookup n (own_ids ids) ≡ none
unfolding lookup
unknown n [] h = refl
unknown n (i ∷ ids) (h, hs) = ground (arith, unknown n ids hs)

own_ids-snoc : (n : ℕ) (ids : List ℕ) → own_ids ids ++ own_ids (n ∷ []) ≡ own_ids (ids ++ (n ∷ []))
own_ids-snoc n [] = refl
own_ids-snoc n (i ∷ ids) = ap (λ xs. (i, i) ∷ xs) (own_ids-snoc n ids)

remove_own : (n : ℕ) (ids : List ℕ) → remove n (own_ids (n ∷ ids)) ≡ own_ids ids
unfolding remove
remove_own n ids = ground (arith, ==_iff n n)

length-without_first {ℓ} :
    {A : Type ℓ} (xs : List A) (n : ℕ) → length xs ≤ suc n → length (without_first xs) ≤ n
length-without_first [] n h = omega arith
length-without_first (x ∷ xs) n h = omega (arith, h)

module _ {F : Type 0} where
  -- `_by_id` holds just the records of the window, under their ids, which were all given out; neither
  -- window is longer than its limit.
  pub record IsTracked (r : Recorder F) : Type 0 where
    pub by_id : r.by_id ≡ own_ids r.all_opportunity_records
    pub known : All (λ n. suc n ≤ r.next_id) r.all_opportunity_records
    pub few : length r.all_opportunity_records ≤ r.max_in_memory_opportunities
    pub few_decays : length r.all_decay_records ≤ r.max_in_memory_decay_records

  -- Before `evict` the window may hold one record more.
  record IsAhead (r : Recorder F) : Type 0 where
    by_id : r.by_id ≡ own_ids r.all_opportunity_records
    known : All (λ n. suc n ≤ r.next_id) r.all_opportunity_records
    few : length r.all_opportunity_records ≤ suc r.max_in_memory_opportunities
    few_decays : length r.all_decay_records ≤ r.max_in_memory_decay_records

  evict_first-IsTracked :
      (r : Recorder F) (window : List ℕ)
      → r.all_opportunity_records ≡ window
      → IsAhead r
      → ltb r.max_in_memory_opportunities (length window) ≡ true
      → IsTracked (evict_first window r)
  evict_first-IsTracked r [] e h l = ground (arith, l)
  evict_first-IsTracked r (n ∷ window) e h l = record {
    by_id = ap (remove n) (h.by_id ∙ ap own_ids e) ∙ remove_own n window;
    known = (subst (All (λ i. suc i ≤ r.next_id)) e h.known).1;
    few = omega (arith, h.few, ap length e);
    few_decays = h.few_decays;
  }

  evict-IsTracked : (r : Recorder F) → IsAhead r → IsTracked (evict r)
  unfolding evict
  evict-IsTracked r h =
      elim (Bool-cases (ltb r.max_in_memory_opportunities (length r.all_opportunity_records))) [
        | inl e ↦ rw e (evict_first-IsTracked r r.all_opportunity_records refl h e)
        | inr e ↦ rw e (record {
          by_id = h.by_id;
          known = h.known;
          few = ground (arith, e);
          few_decays = h.few_decays;
        })
      ]

  record_opportunity-IsTracked :
      (o : Opportunity F) (r : Recorder F) → IsTracked r → IsTracked (record_opportunity o r).0
  unfolding record_opportunity
  record_opportunity-IsTracked o r h = evict-IsTracked _ (record {
    by_id =
        ap (set r.next_id r.next_id) h.by_id
        ∙ set_absent r.next_id r.next_id _ (unknown r.next_id r.all_opportunity_records h.known)
        ∙ own_ids-snoc r.next_id r.all_opportunity_records;
    known =
        All-append _ r.all_opportunity_records _
          (All-imp r.all_opportunity_records (λ n k. omega (arith, k)) h.known) (omega arith, tt);
    few = omega (arith, h.few, length-append r.all_opportunity_records (r.next_id ∷ []));
    few_decays = h.few_decays;
  })

  attach_at-IsTracked :
      (pnl : F) (mode : Mode) (a : Option ℕ) (r : Recorder F)
      → IsTracked r
      → IsTracked (attach_at pnl mode a r)
  attach_at-IsTracked pnl mode none r h = h
  attach_at-IsTracked pnl mode (some a) r h = record {
    by_id = h.by_id;
    known = h.known;
    few = h.few;
    few_decays = h.few_decays;
  }

  keep_decays-IsTracked :
      (r : Recorder F)
      → r.by_id ≡ own_ids r.all_opportunity_records
      → All (λ n. suc n ≤ r.next_id) r.all_opportunity_records
      → length r.all_opportunity_records ≤ r.max_in_memory_opportunities
      → length r.all_decay_records ≤ suc r.max_in_memory_decay_records
      → IsTracked (keep_decays r)
  unfolding keep_decays
  keep_decays-IsTracked r b k l d =
      elim (Bool-cases (ltb r.max_in_memory_decay_records (length r.all_decay_records))) [
        | inl e ↦ rw e (record {
          by_id = b;
          known = k;
          few = l;
          few_decays = length-without_first r.all_decay_records _ d;
        })
        | inr e ↦ rw e (record { by_id = b; known = k; few = l; few_decays = ground (arith, e) })
      ]

  module _ ⦃f : Float F⦄ where
    call-IsTracked : (c : Call F) (r : Recorder F) → IsTracked r → IsTracked (call c r)
    unfolding call attach_trade_result check_after_delay flush
    call-IsTracked (Call.records o) r h = record_opportunity-IsTracked o r h
    call-IsTracked (Call.attaches n pnl mode) r h =
        attach_at-IsTracked pnl mode (lookup n r.by_id) r h
    call-IsTracked (Call.checks n o delay observed) r h =
        keep_decays-IsTracked _ h.by_id h.known h.few
          (omega (arith, h.few_decays, length-append r.all_decay_records (_ ∷ [])))
    call-IsTracked (Call.flushes now) r h = record {
      by_id = h.by_id;
      known = h.known;
      few = h.few;
      few_decays = h.few_decays;
    }

    pub calls-IsTracked :
        (cs : List (Call F)) (r : Recorder F) → IsTracked r → IsTracked (calls cs r)
    unfolding calls
    calls-IsTracked [] r h = h
    calls-IsTracked (c ∷ cs) r h = calls-IsTracked cs (call c r) (call-IsTracked c r h)
