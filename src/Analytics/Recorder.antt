-- ===== src/Analytics/Recorder.antt =====
-- analytics/recorder.py: `OpportunityRecorder`. A record is an object that the buffer, the window and
-- `_by_id` share: they hold its address, which is its id, and `objects` is the store. `parquet` and
-- `decay_parquet` are the files that the flushes have written, under the second in their names. The text of the summary is left out.
pub mod Tracking
pub mod Written
use crypto_arb_engine.Prelude.{
  ◌≡◌, refl, ℕ, suc, Bool, true, false, Option, none, some, List, [], ◌∷◌, ◌++◌, map, String,
  if◌then◌else◌, ◌==◌, ==_iff, ltb, length,
}
use crypto_arb_engine.Prelude.Dict.{Dict, Key, lookup, set, remove}
use crypto_arb_engine.Float.{Float, ◌⊗◌, ◌≤?◌}
use crypto_arb_engine.Core.Types.{Mode, Opportunity}

instance abbrev pub id_key : Key ℕ
id_key = record { same = ◌==◌; same_iff = ==_iff }

-- A dict of the buffer.
pub record Entry (F : Type 0) : Type 0 where
  pub id : ℕ
  pub timestamp : F
  pub strategy : String
  pub symbol : String
  pub num_legs : ℕ
  pub venues : List String
  pub gross_profit_pct : F
  pub net_profit_pct : F
  pub fee_components : List F
  pub max_size_usd : F
  pub requires_prefunded_inventory : Bool
  pub is_atomic : Bool
  pub pnl_usd : Option F
  pub trade_mode : Option Mode

pub record DecayResult (F : Type 0) : Type 0 where
  pub opportunity_id : ℕ
  pub strategy : String
  pub symbol : String
  pub delay_sec : F
  pub original_net_profit_pct : F
  pub observed_net_profit_pct : Option F
  pub survived : Bool

pub record Recorder (F : Type 0) : Type 0 where
  pub max_in_memory_opportunities : ℕ
  pub max_in_memory_decay_records : ℕ
  pub next_id : ℕ
  pub objects : Dict ℕ (Entry F)
  pub opportunity_buffer : List ℕ
  pub decay_buffer : List (DecayResult F)
  pub all_opportunity_records : List ℕ
  pub all_decay_records : List (DecayResult F)
  pub by_id : Dict ℕ ℕ
  pub parquet : Dict ℕ (List (Entry F))
  pub decay_parquet : Dict ℕ (List (DecayResult F))

abbrev pub without_first {ℓ} : {A : Type ℓ} → List A → List A
without_first [] = []
without_first (x ∷ xs) = xs

-- A table that would be empty is not written; one of the same name is replaced.
abbrev pub write_table {ℓ κ} :
    {A : Type ℓ} {B : Type κ} → List A → ℕ → List B → Dict ℕ (List B) → Dict ℕ (List B)
write_table [] timestamp table files = files
write_table (x ∷ buffer) timestamp table files = set timestamp table files

-- The calls, in the order in which the loop runs them.
pub data Call (F : Type 0) : Type 0 where
  records : Opportunity F → Call F
  attaches : (opportunity_id : ℕ) → F → Mode → Call F
  checks : (opportunity_id : ℕ) → Opportunity F → (delay : F) → Option F → Call F
  flushes : (timestamp : ℕ) → Call F

module _ {F : Type 0} where
  abbrev pub new_recorder : (max_opportunities max_decays : ℕ) → Recorder F
  new_recorder max_opportunities max_decays = record {
    max_in_memory_opportunities = max_opportunities;
    max_in_memory_decay_records = max_decays;
    next_id = 0;
    objects = [];
    opportunity_buffer = [];
    decay_buffer = [];
    all_opportunity_records = [];
    all_decay_records = [];
    by_id = [];
    parquet = [];
    decay_parquet = [];
  }

  abbrev pub entry_of : ℕ → Opportunity F → Entry F
  entry_of opportunity_id o = record {
    id = opportunity_id;
    timestamp = o.detected_at;
    strategy = o.strategy;
    symbol = o.symbol;
    num_legs = length o.legs;
    venues = map (λ leg. leg.venue_id) o.legs;
    gross_profit_pct = o.gross_profit_pct;
    net_profit_pct = o.net_profit_pct;
    fee_components = map (λ leg. leg.fee) o.legs;
    max_size_usd = o.max_size_usd;
    requires_prefunded_inventory = o.requires_prefunded_inventory;
    is_atomic = o.is_atomic;
    pnl_usd = none;
    trade_mode = none;
  }

  -- `popleft`, and the removal from `_by_id`.
  abbrev pub evict_first : List ℕ → Recorder F → Recorder F
  evict_first [] r = r
  evict_first (evicted ∷ window) r = record r {
    all_opportunity_records = window;
    by_id = remove evicted r.by_id;
  }

  unfoldable pub evict : Recorder F → Recorder F
  evict r =
      if ltb r.max_in_memory_opportunities (length r.all_opportunity_records)
      then evict_first r.all_opportunity_records r
      else r

  -- `record`, which is a keyword here: the recorder afterwards, and the id.
  unfoldable pub record_opportunity : Opportunity F → Recorder F → Recorder F × ℕ
  unfolding evict
  record_opportunity o r =
      let n = r.next_id in
      (
        evict (record r {
          next_id = suc n;
          objects = set n (entry_of n o) r.objects;
          opportunity_buffer = r.opportunity_buffer ++ (n ∷ []);
          all_opportunity_records = r.all_opportunity_records ++ (n ∷ []);
          by_id = set n n r.by_id;
        }),
        n,
      )

  abbrev pub with_result : F → Mode → Entry F → Entry F
  with_result pnl_usd mode e = record e { pnl_usd = some pnl_usd; trade_mode = some mode }

  -- The change of the object at an address.
  abbrev pub change :
      ℕ → (Entry F → Entry F) → Option (Entry F) → Dict ℕ (Entry F) → Dict ℕ (Entry F)
  change address g none objects = objects
  change address g (some e) objects = set address (g e) objects

  abbrev pub attach_at : F → Mode → Option ℕ → Recorder F → Recorder F
  attach_at pnl_usd mode none r = r
  attach_at pnl_usd mode (some address) r = record r {
    objects = change address (with_result pnl_usd mode) (lookup address r.objects) r.objects;
  }

  unfoldable pub attach_trade_result : ℕ → F → Mode → Recorder F → Recorder F
  attach_trade_result opportunity_id pnl_usd mode r =
      attach_at pnl_usd mode (lookup opportunity_id r.by_id) r

  -- What the buffer's addresses stand for.
  unfoldable pub entries_at : Dict ℕ (Entry F) → List ℕ → List (Entry F)
  entries_at objects [] = []
  entries_at objects (n ∷ ns) = elim (lookup n objects) [
    | none ↦ entries_at objects ns
    | some e ↦ e ∷ entries_at objects ns
  ]

  -- `flush`, at the second `timestamp`.
  unfoldable pub flush : ℕ → Recorder F → Recorder F
  unfolding entries_at
  flush timestamp r = record r {
    parquet =
        write_table r.opportunity_buffer timestamp (entries_at r.objects r.opportunity_buffer)
          r.parquet;
    decay_parquet = write_table r.decay_buffer timestamp r.decay_buffer r.decay_parquet;
    opportunity_buffer = [];
    decay_buffer = [];
  }

  unfoldable pub keep_decays : Recorder F → Recorder F
  keep_decays r =
      if ltb r.max_in_memory_decay_records (length r.all_decay_records)
      then record r { all_decay_records = without_first r.all_decay_records }
      else r

module _ {F : Type 0} ⦃f : Float F⦄ where
  abbrev pub has_survived : Opportunity F → Option F → Bool
  has_survived o none = false
  has_survived o (some observed) = o.net_profit_pct ⊗ f.lit 5 1 ≤? observed

  -- `_check_after_delay`, when its delay has passed. `observed` is the rescan's answer, `none` also where
  -- it raised; the NaN that is written then is `none` here.
  unfoldable pub check_after_delay : ℕ → Opportunity F → F → Option F → Recorder F → Recorder F
  unfolding keep_decays
  check_after_delay opportunity_id o delay observed r =
      let result : DecayResult F = record {
        opportunity_id = opportunity_id;
        strategy = o.strategy;
        symbol = o.symbol;
        delay_sec = delay;
        original_net_profit_pct = o.net_profit_pct;
        observed_net_profit_pct = observed;
        survived = has_survived o observed;
      } in
      keep_decays (record r {
        decay_buffer = r.decay_buffer ++ (result ∷ []);
        all_decay_records = r.all_decay_records ++ (result ∷ []);
      })

  unfoldable pub call : Call F → Recorder F → Recorder F
  unfolding record_opportunity attach_trade_result check_after_delay flush
  call (Call.records o) r = (record_opportunity o r).0
  call (Call.attaches n pnl_usd mode) r = attach_trade_result n pnl_usd mode r
  call (Call.checks n o delay observed) r = check_after_delay n o delay observed r
  call (Call.flushes timestamp) r = flush timestamp r

  unfoldable pub calls : List (Call F) → Recorder F → Recorder F
  unfolding call
  calls [] r = r
  calls (c ∷ cs) r = calls cs (call c r)
