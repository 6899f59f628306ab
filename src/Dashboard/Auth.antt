-- ===== src/Dashboard/Auth.antt =====
-- dashboard/auth.py: `WsTicketStore` and `BasicAuthMiddleware`. The decoding of a header and of a query
-- are parameters, as are the clock and the random tickets.
pub mod Tickets
use crypto_arb_engine.Prelude.{
  Bool, true, false, not, Option, none, some, List, [], ◌∷◌, String, if◌then◌else◌, ◌&&◌, ◌||◌,
  is_some,
}
use crypto_arb_engine.Prelude.Dict.{Dict, string_key, lookup, set, remove}
use crypto_arb_engine.Prelude.Text.{strip_prefix, partition_colon}
use crypto_arb_engine.Float.{Float, ◌⊕◌, ◌<?◌}

-- `_tickets`, with the time at which each expires.
abbrev pub TicketStore : Type 0 → Type 0
TicketStore F = Dict String F

abbrev pub is_blank : Option String → Bool
is_blank none = true
is_blank (some ticket) = string_key.same ticket ""

module _ {F : Type 0} ⦃f : Float F⦄ where
  -- `_TICKET_TTL_SEC`
  abbrev pub ticket_ttl_sec : F
  ticket_ttl_sec = f.lit 30 0

  -- `_expire`
  unfoldable pub expire : F → TicketStore F → TicketStore F
  expire now [] = []
  expire now ((t, expiry) ∷ store) =
      let rest = expire now store in if expiry <? now then rest else (t, expiry) ∷ rest

  -- `issue`, where `ticket` is the random text.
  unfoldable pub issue : F → String → TicketStore F → TicketStore F
  unfolding expire
  issue now ticket store = set ticket (now ⊕ ticket_ttl_sec) (expire now store)

  abbrev pub pop : Option String → TicketStore F → TicketStore F × Bool
  pop none store = (store, false)
  pop (some ticket) store = (remove ticket store, is_some (lookup ticket store))

  unfoldable pub consume : F → Option String → TicketStore F → TicketStore F × Bool
  unfolding expire
  consume now ticket store =
      let live = expire now store in if is_blank ticket then (live, false) else pop ticket live

pub data ScopeType : Type 0 where
  http websocket lifespan : ScopeType

pub data Reply : Type 0 where
  passed closed challenged : Reply

-- What the middleware reads of a request: the ticket of its query, and its authorization header.
pub record Request : Type 0 where
  pub ticket : Option String
  pub auth_header : String

pub record Middleware : Type 0 where
  pub username : String
  pub password : String

-- `hmac.compare_digest`, for texts of ASCII only: of others it raises.
abbrev pub matches : Middleware → String × String → Bool
matches m (username, password) =
    string_key.same username m.username && string_key.same password m.password

-- What decodes to `name:password`, compared with the middleware's own.
abbrev pub matches_decoded : Middleware → Option String → Bool
matches_decoded m none = false
matches_decoded m (some decoded) = matches m (partition_colon decoded)

abbrev pub matches_token : (String → Option String) → Middleware → Option String → Bool
matches_token decode m none = false
matches_token decode m (some token) = matches_decoded m (decode token)

-- `_is_authorized`. `decode` is base64 and UTF-8, none where either fails.
unfoldable pub is_authorized : (String → Option String) → Middleware → String → Bool
is_authorized decode m auth_header = matches_token decode m (strip_prefix "Basic " auth_header)

abbrev pub refuse : ScopeType → Reply
refuse ScopeType.websocket = Reply.closed
refuse _ = Reply.challenged

abbrev pub check_header : (String → Option String) → Middleware → ScopeType → Request → Reply
check_header decode m scope r =
    if is_authorized decode m r.auth_header then Reply.passed else refuse scope

module _ {F : Type 0} ⦃f : Float F⦄ where
  abbrev pub after_ticket : TicketStore F × Bool → Reply → Option (TicketStore F) × Reply
  after_ticket (store, ok) otherwise = (some store, if ok then Reply.passed else otherwise)

  -- `__call__`: the ticket store afterwards, and the reply.
  unfoldable pub answer :
      (String → Option String)
      → F
      → Middleware
      → ScopeType
      → Request
      → Option (TicketStore F)
      → Option (TicketStore F) × Reply
  unfolding is_authorized consume
  answer decode now m ScopeType.lifespan r store = (store, Reply.passed)
  answer decode now m ScopeType.http r store = (store, check_header decode m ScopeType.http r)
  answer decode now m ScopeType.websocket r none =
      (none, check_header decode m ScopeType.websocket r)
  answer decode now m ScopeType.websocket r (some store) =
      after_ticket (consume now r.ticket store) (check_header decode m ScopeType.websocket r)
