-- ===== src/Config/Venues/Lookup.antt =====
-- What the registrations of fees and of transfer status do to the lookups.
use crypto_arb_engine.Prelude.{
  Bool, true, false, Option, none, some, String, if◌then◌else◌, ◌≡◌, ◌≢◌, not, arith, is_some,
}
use crypto_arb_engine.Prelude.Dict.{
  Dict, string_key, pair_key, lookup, IsDict, lookup-set, lookup-remove, set-IsDict, remove-IsDict,
}
use crypto_arb_engine.Float.{Float}
use crypto_arb_engine.Config.Venues.{
  Venues, fee_key, register_live_fees, taker_fee_for, live_fee, register_transfer_status, mark,
  can_withdraw, can_deposit,
}

-- What a status says of a transfer: the status itself, or what was known before.
abbrev pub told : Option Bool → Bool → Bool
told none before = before
told (some answer) before = answer

mark-IsDict :
    (o : Option Bool) (k : String × String) (d : Dict (String × String) (Unit {0}))
    → IsDict d
    → IsDict (mark o k d)
unfolding mark
mark-IsDict none k d h = h
mark-IsDict (some true) k d h = remove-IsDict k d h
mark-IsDict (some false) k d h = set-IsDict k tt d h

mark_open :
    (o : Option Bool) (k j : String × String) (d : Dict (String × String) (Unit {0}))
    → IsDict d
    → not (is_some (lookup j (mark o k d))) ≡ (
        if pair_key.same k j
        then told o (not (is_some (lookup j d)))
        else not (is_some (lookup j d)))
unfolding mark
mark_open none k j d h = ground arith
mark_open (some true) k j d h = ground (arith, lookup-remove k j d h)
mark_open (some false) k j d h = ground (arith, lookup-set k j tt d)

module _ {F : Type 0} where
  -- The sets of blocked transfers hold no key twice.
  pub record IsBlockTable (t : Venues F) : Type 0 where
    pub withdraw_once : IsDict t.withdraw_blocked
    pub deposit_once : IsDict t.deposit_blocked

  -- For tables of blocked transfers that hold no key twice: after a status is registered, both
  -- directions of that asset on that venue answer as told, or as before where the venue said
  -- nothing, no other pair changes its answer, and the tables still hold no key twice.
  pub register_transfer_status_lem :
      (venue asset v a : String) (w d : Option Bool) (t : Venues F)
      → IsBlockTable t
      → let t' = register_transfer_status venue asset w d t in
        let hit = pair_key.same (venue, asset) (v, a) in
        (can_withdraw t' v a ≡ (if hit then told w (can_withdraw t v a) else can_withdraw t v a))
        × (can_deposit t' v a ≡ (if hit then told d (can_deposit t v a) else can_deposit t v a))
        × IsBlockTable t'
  unfolding register_transfer_status can_withdraw can_deposit
  register_transfer_status_lem venue asset v a w d t h = (
    mark_open w (venue, asset) (v, a) t.withdraw_blocked h.withdraw_once,
    mark_open d (venue, asset) (v, a) t.deposit_blocked h.deposit_once,
    record {
      withdraw_once = mark-IsDict w (venue, asset) t.withdraw_blocked h.withdraw_once;
      deposit_once = mark-IsDict d (venue, asset) t.deposit_blocked h.deposit_once;
    },
  )

  module _ ⦃f : Float F⦄ where
    -- A registered rate is what a later lookup of that venue and symbol returns, whatever the static
    -- tables and the fallback say; a venue-wide rate is what a lookup returns for a symbol with no rate
    -- of its own; and the rate of a symbol does not reach another venue.
    pub register_live_fees_lem :
        (t : Venues F) (venue symbol other s : String) (rate fallback : F) (maker : Option F)
        → (taker_fee_for
              (register_live_fees venue (some symbol) (some rate) maker t)
              venue
              fallback
              (some symbol)
            ≡ rate)
          × (lookup (venue, some s) t.live_taker ≡ none
              → taker_fee_for
                  (register_live_fees venue none (some rate) maker t)
                  venue
                  fallback
                  (some s)
                ≡ rate)
          × (venue ≢ other
              → taker_fee_for
                  (register_live_fees venue (some symbol) (some rate) maker t)
                  other
                  fallback
                  (some s)
                ≡ taker_fee_for t other fallback (some s))
    unfolding taker_fee_for live_fee register_live_fees
    register_live_fees_lem t venue symbol other s rate fallback maker = (
      ground (
        arith,
        lookup-set (venue, some symbol) (venue, some symbol) rate t.live_taker,
        string_key.same_iff venue venue,
        string_key.same_iff symbol symbol,
      ),
      λ h. ground (
        arith,
        h,
        lookup-set (venue, none) (venue, some s) rate t.live_taker,
        lookup-set (venue, none) (venue, none) rate t.live_taker,
        string_key.same_iff venue venue,
      ),
      λ ne. ground (
        arith,
        ne,
        lookup-set (venue, some symbol) (other, some s) rate t.live_taker,
        lookup-set (venue, some symbol) (other, none) rate t.live_taker,
        string_key.same_iff venue other,
      ),
    )
