-- ===== src/Handlers.antt =====
-- The table of URI handlers in src/civetweb.c: mg_set_handler_type, get_request_handler and
-- release_handler_ref. The context lock makes what happens between two waits one step. A node is
-- found again by its type and URI, of which the list holds one node at most. Allocations succeed.
pub mod Lookup
pub mod Refs
pub mod Handout
pub mod Steps
use civetweb.Base.{Bool, Bytes, List, Option, [], false, get_or, if◌then◌else◌, length, ltb}
use civetweb.Base.{none, not, some, true, ℕ, ◌&&◌, ◌+◌, ◌-◌, ◌==◌, ◌||◌, ◌∷◌}
use civetweb.Ctype.{str_eq, starts_with}
use civetweb.Match.{match_prefix}

pub data HandlerType : Type 0 where
  request_handler websocket_handler auth_handler : HandlerType

unfoldable pub same_type : HandlerType → HandlerType → Bool
same_type request_handler request_handler = true
same_type websocket_handler websocket_handler = true
same_type auth_handler auth_handler = true
same_type s t = false

-- The function pointers, where `none` is NULL; the list of subprotocols is one more pointer.
pub record Callbacks (F : Type 0) : Type 0 where
  pub handler : Option F
  pub subprotocols : Option F
  pub connect_handler : Option F
  pub ready_handler : Option F
  pub data_handler : Option F
  pub close_handler : Option F
  pub auth : Option F

-- struct mg_handler_info
pub record HandlerInfo (F D : Type 0) : Type 0 where
  pub uri : Bytes
  pub handler_type : HandlerType
  pub callbacks : Callbacks F
  pub refcount : ℕ
  pub removing : Bool
  pub cbdata : D

abbrev pub is_null : {A : Type 0} → Option A → Bool
is_null none = true
is_null (some a) = false

module _ {F : Type 0} where
  abbrev pub no_websocket : Callbacks F → Bool
  no_websocket c =
      is_null c.connect_handler
      && (is_null c.ready_handler && (is_null c.data_handler && is_null c.close_handler))

  -- The tests at the start; without them, `mg_set_handler_type` returns at once.
  unfoldable pub are_valid : HandlerType → Bool → Callbacks F → Bool
  are_valid websocket_handler is_delete c =
      is_null c.handler && ((is_delete || not (no_websocket c)) && is_null c.auth)
  are_valid request_handler is_delete c =
      no_websocket c && ((is_delete || not (is_null c.handler)) && is_null c.auth)
  are_valid auth_handler is_delete c =
      is_null c.handler && (no_websocket c && (is_delete || not (is_null c.auth)))

  -- The pointers that are stored for a type.
  unfoldable pub assign : HandlerType → Callbacks F → Callbacks F → Callbacks F
  assign request_handler new old = record old { handler = new.handler }
  assign websocket_handler new old = record old {
    subprotocols = new.subprotocols;
    connect_handler = new.connect_handler;
    ready_handler = new.ready_handler;
    data_handler = new.data_handler;
    close_handler = new.close_handler;
  }
  assign auth_handler new old = record old { auth = new.auth }

  abbrev pub nulls : Callbacks F
  nulls = record {
    handler = none;
    subprotocols = none;
    connect_handler = none;
    ready_handler = none;
    data_handler = none;
    close_handler = none;
    auth = none;
  }

module _ {F D : Type 0} where
  unfoldable pub new_handler : HandlerType → Bytes → Callbacks F → D → HandlerInfo F D
  unfolding assign
  new_handler type uri c cbdata = record {
    uri = uri;
    handler_type = type;
    callbacks = assign type c nulls;
    refcount = 0;
    removing = false;
    cbdata = cbdata;
  }

  unfoldable pub is_key : HandlerType → Bytes → HandlerInfo F D → Bool
  unfolding same_type
  is_key type uri h = same_type h.handler_type type && str_eq h.uri uri

  -- A request handler that is in use.
  abbrev pub is_used : HandlerType → HandlerInfo F D → Bool
  is_used type h = same_type type request_handler && ltb 0 h.refcount

-- One search of the list, up to the next wait or the end.
pub data Attempt (F D : Type 0) : Type 0 where
  waits done : List (HandlerInfo F D) → Attempt F D

module _ {F D : Type 0} where
  abbrev pub behind : HandlerInfo F D → Attempt F D → Attempt F D
  behind h (waits hs) = waits (h ∷ hs)
  behind h (done hs) = done (h ∷ hs)

  -- What is done with the node that has the type and the URI.
  unfoldable pub replace :
      HandlerType → Bool → Callbacks F → D → HandlerInfo F D → List (HandlerInfo F D) → Attempt F D
  unfolding assign same_type
  replace type is_delete c cbdata h hs =
      if is_delete
      then if is_used type h then waits (record h { removing = true } ∷ hs) else done hs
      else if is_used type h
      then waits (h ∷ hs)
      else done (record h { callbacks = assign type c h.callbacks; cbdata = cbdata } ∷ hs)

  unfoldable pub set_attempt :
      HandlerType → Bytes → Bool → Callbacks F → D → List (HandlerInfo F D) → Attempt F D
  set_attempt type uri is_delete c cbdata [] =
      done (if is_delete then [] else new_handler type uri c cbdata ∷ [])
  set_attempt type uri is_delete c cbdata (h ∷ hs) =
      let later = behind h (set_attempt type uri is_delete c cbdata hs) in
      if is_key type uri h then replace type is_delete c cbdata h hs else later

  unfoldable pub mg_set_handler_type :
      HandlerType → Bytes → Bool → Callbacks F → D → List (HandlerInfo F D) → Attempt F D
  unfolding are_valid set_attempt
  mg_set_handler_type type uri is_delete c cbdata hs =
      if are_valid type is_delete c then set_attempt type uri is_delete c cbdata hs else done hs

abbrev pub is_positive : Option ℕ → Bool
is_positive none = false
is_positive (some n) = ltb 0 n

-- What a pass of `get_request_handler` over the list comes to: no node matches, the node that does is
-- being removed, or its pointers are handed out.
pub data Search (F D : Type 0) : Type 0 where
  passes refuses : Search F D
  hits : HandlerInfo F D → List (HandlerInfo F D) → Search F D

module _ {F D : Type 0} where
  unfoldable pub matches_exactly : Bytes → HandlerInfo F D → Bool
  matches_exactly uri h = str_eq h.uri uri

  -- uri/something
  unfoldable pub matches_partly : Bytes → HandlerInfo F D → Bool
  matches_partly uri h =
      ltb (length h.uri) (length uri)
      && (get_or uri (length h.uri) 0 == b'/' && starts_with uri h.uri)

  unfoldable pub matches_pattern : Bytes → HandlerInfo F D → Bool
  matches_pattern uri h = is_positive (match_prefix (some h.uri) uri)

  abbrev pub onward : HandlerInfo F D → Search F D → Search F D
  onward h passes = passes
  onward h refuses = refuses
  onward h (hits x hs) = hits x (h ∷ hs)

  unfoldable pub take_handler : HandlerType → HandlerInfo F D → List (HandlerInfo F D) → Search F D
  unfolding same_type
  take_handler type h hs =
      if same_type type request_handler
      then if h.removing then refuses else hits h (record h { refcount = h.refcount + 1 } ∷ hs)
      else hits h (h ∷ hs)

  unfoldable pub search_pass :
      HandlerType → (HandlerInfo F D → Bool) → List (HandlerInfo F D) → Search F D
  search_pass type matched [] = passes
  search_pass type matched (h ∷ hs) =
      let later = onward h (search_pass type matched hs) in
      if same_type h.handler_type type && matched h then take_handler type h hs else later

  abbrev pub or_else : Search F D → Search F D → Search F D
  or_else passes next = next
  or_else refuses next = refuses
  or_else (hits x hs) next = hits x hs

  unfoldable pub get_request_handler : HandlerType → Bytes → List (HandlerInfo F D) → Search F D
  get_request_handler type uri hs = or_else (search_pass type (matches_exactly uri) hs) (
      or_else (search_pass type (matches_partly uri) hs)
        (search_pass type (matches_pattern uri) hs))

  -- The counter of the node that was handed out, given by its URI. It is above 0 then, so the unsigned
  -- counter of the source does not wrap where the one here stops.
  unfoldable pub release_handler_ref : Bytes → List (HandlerInfo F D) → List (HandlerInfo F D)
  release_handler_ref uri [] = []
  release_handler_ref uri (h ∷ hs) =
      let later = h ∷ release_handler_ref uri hs in
      if is_key request_handler uri h then record h { refcount = h.refcount - 1 } ∷ hs else later
