-- ===== src/Dashboard/Auth/Tickets.antt =====
-- A ticket opens one connection, and only before it expires.
use crypto_arb_engine.Prelude.{
  ◌≡◌, ◌≢◌, refl, sym, ◌∙◌, ap, true, false, not, Option, none, some, [], ◌∷◌, String,
  if◌then◌else◌, is_some, Bool-cases, Option-cases, Any, ◌⊎◌, inl, inr, arith,
}
use crypto_arb_engine.Prelude.Dict.{
  string_key, lookup, IsDict, lookup-remove, set-IsDict, remove-IsDict, same_refl, lookup-set_self,
}
use crypto_arb_engine.Prelude.Text.{strip_prefix, partition_colon}
use crypto_arb_engine.Float.{Float, ◌⊕◌, ◌<?◌}
use crypto_arb_engine.Dashboard.Auth.{
  TicketStore, ticket_ttl_sec, expire, issue, consume, ScopeType, Reply, Request, Middleware,
  matches, is_authorized, refuse, check_header, answer,
}

refused : (scope : ScopeType) → refuse scope ≢ Reply.passed
refused ScopeType.http e = cc
refused ScopeType.websocket e = cc
refused ScopeType.lifespan e = cc

-- The header is `Basic ` and a token that decodes to the name and the password of the middleware.
pub record HasPassword (decode : String → Option String) (m : Middleware) (auth_header : String)
    : Type 0 where
  pub token : String
  pub decoded : String
  pub basic : strip_prefix "Basic " auth_header ≡ some token
  pub decodes : decode token ≡ some decoded
  pub credentials : partition_colon decoded ≡ (m.username, m.password)

matches-credentials :
    (m : Middleware) (given : String × String)
    → matches m given ≡ true
    → given ≡ (m.username, m.password)
matches-credentials m (username, password) h =
    let name = (string_key.same_iff username m.username).0 (ground arith) in
    let pass = (string_key.same_iff password m.password).0 (ground arith) in λ i. (name i, pass i)

authorized-HasPassword :
    (decode : String → Option String) (m : Middleware) (auth_header : String)
    → is_authorized decode m auth_header ≡ true
    → HasPassword decode m auth_header
unfolding is_authorized
authorized-HasPassword decode m auth_header h =
    elim (Option-cases (strip_prefix "Basic " auth_header)) [
      | inl e ↦ cc (rw e at h)
      | inr e ↦ elim (Option-cases (decode e.0)) [
        | inl d ↦ cc (rw (e.1, d) at h)
        | inr d ↦ record {
          token = e.0;
          decoded = d.0;
          basic = e.1;
          decodes = d.1;
          credentials = matches-credentials m (partition_colon d.0) (rw (e.1, d.1) at h);
        }
      ]
    ]

header_passes :
    (decode : String → Option String) (m : Middleware) (scope : ScopeType) (r : Request)
    → check_header decode m scope r ≡ Reply.passed
    → HasPassword decode m r.auth_header
header_passes decode m scope r h = elim (Bool-cases (is_authorized decode m r.auth_header)) [
  | inl e ↦ authorized-HasPassword decode m r.auth_header e
  | inr e ↦ elim (refused scope (rw e at h)) [ ]
]

module _ {F : Type 0} ⦃f : Float F⦄ where
  -- What is left of an entry at a time.
  abbrev fresh : F → Option F → Option F
  fresh now none = none
  fresh now (some expiry) = if expiry <? now then none else some expiry

  expire_absent :
      (now : F) (t : String) (s : TicketStore F)
      → lookup t s ≡ none
      → lookup t (expire now s) ≡ none
  unfolding expire lookup
  expire_absent now t [] h = refl
  expire_absent now t ((u, x) ∷ s) h = elim (Bool-cases (x <? now)) [
    | inl e ↦ rw e (expire_absent now t s (ground arith))
    | inr e ↦ rw e (ground (arith, expire_absent now t s))
  ]

  lookup-expire :
      (now : F) (t : String) (s : TicketStore F)
      → IsDict s
      → (lookup t (expire now s) ≡ fresh now (lookup t s)) × IsDict (expire now s)
  unfolding expire lookup
  lookup-expire now t [] h = (refl, tt)
  lookup-expire now t ((u, x) ∷ s) (h, hs) =
      let ih = lookup-expire now t s hs in
      elim (Bool-cases (x <? now)) [
        | inr e ↦ rw e (
          elim (Bool-cases (string_key.same u t)) [ inl k ↦ rw (k, e) refl | inr k ↦ rw k ih.0 ],
          (expire_absent now u s h, ih.1),
        )
        | inl e ↦ rw e (
          elim (Bool-cases (string_key.same u t)) [
            | inl k ↦
                rw (k, e)
                  (expire_absent now t s
                    (ap (λ v. lookup v s) (sym ((string_key.same_iff u t).0 k)) ∙ h))
            | inr k ↦ rw k ih.0
          ],
          ih.1,
        )
      ]

  issue-IsDict : (now : F) (t : String) (s : TicketStore F) → IsDict s → IsDict (issue now t s)
  unfolding issue
  issue-IsDict now t s h =
      set-IsDict t (now ⊕ ticket_ttl_sec) (expire now s) (lookup-expire now t s h).1

  -- Whether a consumed ticket was good, and that it is gone.
  consume_lem :
      (now : F) (t : String) (s : TicketStore F)
      → IsDict s
      → string_key.same t "" ≡ false
      → ((consume now (some t) s).1 ≡ is_some (fresh now (lookup t s)))
        × (lookup t (consume now (some t) s).0 ≡ none)
        × IsDict (consume now (some t) s).0
  unfolding consume
  consume_lem now t s h blank =
      let live = lookup-expire now t s h in
      rw blank (
        ap is_some live.0,
        lookup-remove t t (expire now s) live.1 ∙ rw (same_refl t) refl,
        remove-IsDict t (expire now s) live.1,
      )

  -- In a store that holds no ticket twice, a ticket that was issued and is not empty opens a
  -- connection until its time has run out, and not after it; once it was presented it never does
  -- again, at any time; and the store still holds no ticket twice.
  pub consume-issue :
      (now later again : F) (t : String) (s : TicketStore F)
      → IsDict s
      → string_key.same t "" ≡ false
      → let first = consume later (some t) (issue now t s) in
        (first.1 ≡ not (now ⊕ ticket_ttl_sec <? later))
        × ((consume again (some t) first.0).1 ≡ false)
        × IsDict first.0
  unfolding issue
  consume-issue now later again t s h blank =
      let issued = issue now t s in
      let first = consume_lem later t issued (issue-IsDict now t s h) blank in
      let second = consume_lem again t (consume later (some t) issued).0 first.2 blank in
      (
        first.0
            ∙ ap (λ o. is_some (fresh later o))
                (lookup-set_self t (now ⊕ ticket_ttl_sec) (expire now s))
            ∙ (elim (Bool-cases (now ⊕ ticket_ttl_sec <? later)) [
              | inl e ↦ rw e refl
              | inr e ↦ rw e refl
            ]),
        second.0 ∙ ap (λ o. is_some (fresh again o)) first.1,
        first.2,
      )

  -- A ticket that is left after the expired ones are dropped was kept with a time that had not come.
  live_ticket :
      (now : F) (t : String) (s : TicketStore F)
      → is_some (lookup t (expire now s)) ≡ true
      → Any (λ e. (e.0 ≡ t) × (e.1 <? now ≡ false)) s
  unfolding expire lookup
  live_ticket now t [] h = cc
  live_ticket now t ((u, x) ∷ s) h = elim (Bool-cases (x <? now)) [
    | inl e ↦ Any.there (live_ticket now t s (rw e at h))
    | inr e ↦ elim (Bool-cases (string_key.same u t)) [
      | inl k ↦ Any.here ((string_key.same_iff u t).0 k, e)
      | inr k ↦ Any.there (live_ticket now t s (rw (e, k) at h))
    ]
  ]

  accepted_ticket :
      (now : F) (ticket : Option String) (s : TicketStore F)
      → (consume now ticket s).1 ≡ true
      → (t : String) × (ticket ≡ some t) × (t ≢ "") × Any (λ e. (e.0 ≡ t) × (e.1 <? now ≡ false)) s
  unfolding consume
  accepted_ticket now none s h = cc
  accepted_ticket now (some t) s h = elim (Bool-cases (string_key.same t "")) [
    | inl e ↦ cc (rw e at h)
    | inr e ↦
        (t, refl, λ q. cc (e, (string_key.same_iff t "").1 q), live_ticket now t s (rw e at h))
  ]

  -- A request of the web, over HTTP or a websocket, passes only with a header `Basic` whose token decodes
  -- to the name, a colon and the password of the middleware, or as a websocket with a ticket that is not
  -- empty and stands in the store with an expiry that has not passed.
  pub answer_guards :
      (decode : String → Option String) (now : F) (m : Middleware) (scope : ScopeType) (r : Request)
      (store : Option (TicketStore F))
      → scope ≢ ScopeType.lifespan
      → (answer decode now m scope r store).1 ≡ Reply.passed
      → HasPassword decode m r.auth_header
        ⊎ ((scope ≡ ScopeType.websocket)
            × ((s : TicketStore F) × (t : String) × (store ≡ some s)
                × (r.ticket ≡ some t)
                × (t ≢ "")
                × Any (λ e. (e.0 ≡ t) × (e.1 <? now ≡ false)) s))
  unfolding answer
  answer_guards decode now m ScopeType.lifespan r store web h = elim (web refl) [ ]
  answer_guards decode now m ScopeType.http r store web h =
      inl (header_passes decode m ScopeType.http r h)
  answer_guards decode now m ScopeType.websocket r none web h =
      inl (header_passes decode m ScopeType.websocket r h)
  answer_guards decode now m ScopeType.websocket r (some s) web h =
      elim (Bool-cases (consume now r.ticket s).1) [
        | inl e ↦
            let (t, presented, filled, kept) = accepted_ticket now r.ticket s e in
            inr (refl, (s, t, refl, presented, filled, kept))
        | inr e ↦ inl (header_passes decode m ScopeType.websocket r (rw e at h))
      ]
