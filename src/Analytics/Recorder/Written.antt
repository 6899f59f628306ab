-- ===== src/Analytics/Recorder/Written.antt =====
-- What `OpportunityRecorder` writes.
use crypto_arb_engine.Prelude.{
  append_assoc, append-nil, map-append, ◌≡◌, refl, sym, ◌∙◌, ap, ℕ, zero, suc, ◌≤◌, false, Option,
  none, some, List, [], ◌∷◌, ◌++◌, map, length, All, All-append, All-imp, Bool-cases, inl, inr,
  arith, ltb, ◌==◌, ==_iff,
}
use crypto_arb_engine.Prelude.Dict.{Dict, lookup, set, set_absent, lookup-set}
use crypto_arb_engine.Float.{Float}
use crypto_arb_engine.Core.Types.{Mode, Opportunity}
use crypto_arb_engine.Analytics.Recorder.{
  id_key, Entry, Recorder, Call, new_recorder, entry_of, evict, evict_first, record_opportunity,
  write_table, with_result, change, attach_at, attach_trade_result, flush, entries_at, keep_decays,
  check_after_delay, call, calls,
}
use crypto_arb_engine.Analytics.Recorder.Tracking.{IsTracked, calls-IsTracked}

-- The ids that were given out, in order, when `n` is the next.
unfoldable pub ids_below : ℕ → List ℕ
ids_below zero = []
ids_below (suc n) = ids_below n ++ (n ∷ [])

module _ {F : Type 0} where
  abbrev pub ids_of : List (Entry F) → List ℕ
  ids_of es = map (λ e. e.id) es

  -- At an address stands the record of that id.
  abbrev IsStored : Dict ℕ (Entry F) → ℕ → Type 0
  IsStored objects n = (e : Entry F) × ((lookup n objects ≡ some e) × (e.id ≡ n))

  -- The records of the files, in the order in which the files were made.
  abbrev pub written : Dict ℕ (List (Entry F)) → List (Entry F)
  written [] = []
  written ((timestamp, table) ∷ files) = table ++ written files

  -- Each flush comes in a later second than the one before it, the first not before `next`.
  abbrev pub Apart : ℕ → List (Call F) → Type 0
  Apart next [] = Unit
  Apart next (Call.flushes timestamp ∷ cs) = (next ≤ timestamp) × Apart (suc timestamp) cs
  Apart next (Call.records o ∷ cs) = Apart next cs
  Apart next (Call.attaches n pnl_usd mode ∷ cs) = Apart next cs
  Apart next (Call.checks n o delay observed ∷ cs) = Apart next cs

  -- What was written and what is buffered is every record, once, in the order of the ids; no file is
  -- named by a second from `next` on.
  record IsLedger (next : ℕ) (r : Recorder F) : Type 0 where
    in_order : ids_of (written r.parquet) ++ r.opportunity_buffer ≡ ids_below r.next_id
    unnamed : (n : ℕ) → next ≤ n → lookup n r.parquet ≡ none
    stored : All (IsStored r.objects) r.opportunity_buffer

  entries_at-ids :
      (objects : Dict ℕ (Entry F)) (ns : List ℕ)
      → All (IsStored objects) ns
      → ids_of (entries_at objects ns) ≡ ns
  unfolding entries_at
  entries_at-ids objects [] h = refl
  entries_at-ids objects (n ∷ ns) ((e, (found, own)), hs) =
      rw (entries_at, found)
        (ap (λ i. i ∷ ids_of (entries_at objects ns)) own
          ∙ ap (λ is. n ∷ is) (entries_at-ids objects ns hs))

  written-append :
      (files : Dict ℕ (List (Entry F))) (timestamp : ℕ) (table : List (Entry F))
      → written (files ++ ((timestamp, table) ∷ [])) ≡ written files ++ table
  written-append [] timestamp table = append-nil table
  written-append ((t, es) ∷ files) timestamp table =
      ap (λ rest. es ++ rest) (written-append files timestamp table)
      ∙ sym (append_assoc es (written files) table)

  -- What a flush writes in a second in which none was made.
  written-write :
      (buffer : List ℕ) (timestamp : ℕ) (objects : Dict ℕ (Entry F))
      (files : Dict ℕ (List (Entry F)))
      → lookup timestamp files ≡ none
      → All (IsStored objects) buffer
      → ids_of (written (write_table buffer timestamp (entries_at objects buffer) files))
        ≡ ids_of (written files) ++ buffer
  written-write [] timestamp objects files h s = sym (append-nil _)
  written-write (n ∷ buffer) timestamp objects files h s =
      let table = entries_at objects (n ∷ buffer) in
      ap (λ (fs : Dict ℕ (List (Entry F))). ids_of (written fs))
        (set_absent timestamp table files h)
      ∙ ap ids_of (written-append files timestamp table)
      ∙ map-append (λ (e : Entry F). e.id) (written files) table
      ∙ ap (λ is. ids_of (written files) ++ is) (entries_at-ids objects (n ∷ buffer) s)

  unnamed-write :
      (buffer : List ℕ) (timestamp next : ℕ) (table : List (Entry F))
      (files : Dict ℕ (List (Entry F)))
      → next ≤ timestamp
      → ((n : ℕ) → next ≤ n → lookup n files ≡ none)
      → (n : ℕ) → suc timestamp ≤ n
      → lookup n (write_table buffer timestamp table files) ≡ none
  unnamed-write [] timestamp next table files le h n k = h n (omega (arith, le, k))
  unnamed-write (x ∷ buffer) timestamp next table files le h n k =
      let other : (timestamp == n) ≡ false = ground (arith, k) in
      lookup-set timestamp n table files ∙ rw other (h n (omega (arith, le, k)))

  flush-IsLedger :
      (next timestamp : ℕ) (r : Recorder F)
      → next ≤ timestamp
      → IsLedger next r
      → IsLedger (suc timestamp) (flush timestamp r)
  unfolding flush
  flush-IsLedger next timestamp r le h = record {
    in_order =
        append-nil _
        ∙ written-write r.opportunity_buffer timestamp r.objects r.parquet (h.unnamed timestamp le)
            h.stored
        ∙ h.in_order;
    unnamed = unnamed-write r.opportunity_buffer timestamp next _ r.parquet le h.unnamed;
    stored = tt;
  }

  evict-IsLedger : (next : ℕ) (r : Recorder F) → IsLedger next r → IsLedger next (evict r)
  unfolding evict
  evict-IsLedger next r h =
      elim (Bool-cases (ltb r.max_in_memory_opportunities (length r.all_opportunity_records))) [
        | inl e ↦ rw e (first r.all_opportunity_records r h)
        | inr e ↦ rw e h
      ]
    where
      first :
          (window : List ℕ) (q : Recorder F)
          → IsLedger next q
          → IsLedger next (evict_first window q)
      first [] q k = k
      first (n ∷ window) q k = record {
        in_order = k.in_order;
        unnamed = k.unnamed;
        stored = k.stored;
      }

  set-IsStored :
      (objects : Dict ℕ (Entry F)) (a n : ℕ) (e : Entry F)
      → e.id ≡ a
      → IsStored objects n
      → IsStored (set a e objects) n
  set-IsStored objects a n e own (d, (found, same)) = elim (Bool-cases (a == n)) [
    | inl q ↦ (e, (lookup-set a n e objects ∙ rw q refl, own ∙ (==_iff a n).0 q))
    | inr q ↦ (d, (lookup-set a n e objects ∙ rw q found, same))
  ]

  record_opportunity-IsLedger :
      (o : Opportunity F) (next : ℕ) (r : Recorder F)
      → IsLedger next r
      → IsLedger next (record_opportunity o r).0
  unfolding record_opportunity ids_below
  record_opportunity-IsLedger o next r h =
      let n = r.next_id in
      let e = entry_of n o in
      evict-IsLedger next _ (record {
        in_order =
            sym (append_assoc (ids_of (written r.parquet)) r.opportunity_buffer (n ∷ []))
            ∙ ap (λ is. is ++ (n ∷ [])) h.in_order;
        unnamed = h.unnamed;
        stored =
            All-append _ r.opportunity_buffer _
              (All-imp r.opportunity_buffer (λ i k. set-IsStored r.objects n i e refl k) h.stored)
              ((e, (lookup-set n n e r.objects ∙ ground (arith, ==_iff n n), refl)), tt);
      })

  change-IsStored :
      (objects : Dict ℕ (Entry F)) (a n : ℕ) (pnl : F) (mode : Mode) (found : Option (Entry F))
      → lookup a objects ≡ found
      → IsStored objects n
      → IsStored (change a (with_result pnl mode) found objects) n
  change-IsStored objects a n pnl mode none q h = h
  change-IsStored objects a n pnl mode (some e) q (d, (here, same)) = elim (Bool-cases (a == n)) [
    | inr k ↦ (d, (lookup-set a n (with_result pnl mode e) objects ∙ rw k here, same))
    | inl k ↦
        let there = (==_iff a n).0 k in
        let one : e ≡ d = ground (arith, q, here, there) in
        (
          with_result pnl mode e,
          (
            lookup-set a n (with_result pnl mode e) objects ∙ rw k refl,
            ap (λ (x : Entry F). x.id) one ∙ same,
          ),
        )
  ]

  attach_at-IsLedger :
      (pnl : F) (mode : Mode) (a : Option ℕ) (next : ℕ) (r : Recorder F)
      → IsLedger next r
      → IsLedger next (attach_at pnl mode a r)
  attach_at-IsLedger pnl mode none next r h = h
  attach_at-IsLedger pnl mode (some a) next r h = record {
    in_order = h.in_order;
    unnamed = h.unnamed;
    stored =
        All-imp r.opportunity_buffer
          (λ n k. change-IsStored r.objects a n pnl mode (lookup a r.objects) refl k) h.stored;
  }

  keep_decays-IsLedger :
      (next : ℕ) (r : Recorder F) → IsLedger next r → IsLedger next (keep_decays r)
  unfolding keep_decays
  keep_decays-IsLedger next r h =
      elim (Bool-cases (ltb r.max_in_memory_decay_records (length r.all_decay_records))) [
        | inl e ↦ rw e (record { in_order = h.in_order; unnamed = h.unnamed; stored = h.stored })
        | inr e ↦ rw e h
      ]

  module _ ⦃f : Float F⦄ where
    check_after_delay-IsLedger :
        (n : ℕ) (o : Opportunity F) (delay : F) (observed : Option F) (next : ℕ) (r : Recorder F)
        → IsLedger next r
        → IsLedger next (check_after_delay n o delay observed r)
    unfolding check_after_delay
    check_after_delay-IsLedger n o delay observed next r h =
        keep_decays-IsLedger next _
          (record { in_order = h.in_order; unnamed = h.unnamed; stored = h.stored })

    calls-IsLedger :
        (cs : List (Call F)) (next : ℕ) (r : Recorder F)
        → Apart next cs
        → IsLedger next r
        → (last : ℕ) × IsLedger last (calls cs r)
    unfolding calls call attach_trade_result
    calls-IsLedger [] next r a h = (next, h)
    calls-IsLedger (Call.records o ∷ cs) next r a h =
        calls-IsLedger cs next _ a (record_opportunity-IsLedger o next r h)
    calls-IsLedger (Call.attaches n pnl mode ∷ cs) next r a h =
        calls-IsLedger cs next _ a (attach_at-IsLedger pnl mode (lookup n r.by_id) next r h)
    calls-IsLedger (Call.checks n o delay observed ∷ cs) next r a h =
        calls-IsLedger cs next _ a (check_after_delay-IsLedger n o delay observed next r h)
    calls-IsLedger (Call.flushes timestamp ∷ cs) next r (le, a) h =
        calls-IsLedger cs (suc timestamp) _ a (flush-IsLedger next timestamp r le h)

    -- After any calls on a new recorder, each flush in a later second than the one before it, neither
    -- window is longer than its limit and `_by_id` holds just the records of the window; and what the
    -- files hold, followed by what is buffered, is every record that was made, once, in the order of the
    -- ids, whatever was evicted from memory meanwhile.
    pub recorder_calls :
        (max_opportunities max_decays : ℕ) (cs : List (Call F))
        → Apart 0 cs
        → let r = calls cs (new_recorder max_opportunities max_decays) in
          IsTracked r × (ids_of (written r.parquet) ++ r.opportunity_buffer ≡ ids_below r.next_id)
    unfolding ids_below lookup
    recorder_calls max_opportunities max_decays cs a =
        let new = new_recorder max_opportunities max_decays in
        (
          calls-IsTracked cs new
              (record { by_id = refl; known = tt; few = omega arith; few_decays = omega arith }),
          (calls-IsLedger cs 0 new a
              (record { in_order = refl; unnamed = λ n h. refl; stored = tt })).1.in_order,
        )
