-- ===== src/Plank/Server/Bridged.antt =====
-- The tables of the server agree: the lists of the channels, the handlers and the message bridges.
use Prim.Native.String.{String}
use transport_go.Prelude.{
  ◌≡◌, refl, arith, eq_iff, Bool, true, false, Option, none, some, List, [], ◌∷◌, ◌++◌, str_eq,
  ◌||◌, Option-cases, inl, inr, subst, sym,
}
use transport_go.Prelude.GoMap.{contains, lookup, lookup-insert}
use transport_go.Plank.Utils.{contains_string}
use transport_go.Plank.Server.Routes.{HandlerFunc, no_handler, endpoint, other, Template}
use transport_go.Plank.Server.{
  RestBridgeConfig, clear_http_channel_bridges_for_service, MessageBridge, PlatformServer, list_at,
  open_message_bridge, add_bridge, make_endpoints, build_handler, add_endpoint,
}
use transport_go.Plank.Server.Override.{
  add_bridge-cases, lookup-delete_all, open_message_bridge-same, handler_at,
}

contains_string-append :
    (text last : String) (keys : List String)
    → contains_string text (keys ++ last ∷ []) ≡ (contains_string text keys || str_eq last text)
unfolding contains_string
contains_string-append text last [] = ground arith
contains_string-append text last (key ∷ keys) =
    ground (arith, contains_string-append text last keys)

module _ {B F : Type 0} where
  -- Whether a handler is a bridge to the channel.
  abbrev pub owned : String → Option (HandlerFunc B F) → Bool
  owned name (some (endpoint channel builder timeout)) = str_eq channel name
  owned name _ = false

  owned_once :
      (name asked : String) (found : Option (HandlerFunc B F))
      → str_eq name asked ≡ false
      → owned name found ≡ true
      → owned asked found ≡ false
  owned_once name asked none n e = refl
  owned_once name asked (some no_handler) n e = refl
  owned_once name asked (some (other f)) n e = refl
  owned_once name asked (some (endpoint channel builder timeout)) n e =
      ground (arith, n, e, eq_iff channel name, eq_iff channel asked, eq_iff name asked)

  abbrev pub is_bridge : Option (HandlerFunc B F) → Bool
  is_bridge (some (endpoint channel builder timeout)) = true
  is_bridge _ = false

module _ {B F M : Type 0} where
  abbrev pub has_message_bridge : String → PlatformServer B F M → Bool
  has_message_bridge name s = elim s.message_bridge_map [
    | none ↦ false
    | some bridges ↦ contains name bridges
  ]

  abbrev pub is_listed : String → String → PlatformServer B F M → Bool
  is_listed name key s = contains_string key (list_at name s.service_chan_to_bridge_endpoints)

-- A key is listed for a channel exactly if its handler is a bridge to the channel, and then the
-- channel has a message bridge.
pub record IsBridged {B F M : Type 0} (s : PlatformServer B F M) : Type 0 where
  pub listed : (name key : String) → is_listed name key s ≡ owned name (handler_at key s)
  pub opened : (name key : String) → is_listed name key s ≡ true → has_message_bridge name s ≡ true

module _ {B F M : Type 0} where
  list_at-make_endpoints :
      (asked name : String) (s : PlatformServer B F M)
      → list_at asked (make_endpoints name s).service_chan_to_bridge_endpoints
        ≡ list_at asked s.service_chan_to_bridge_endpoints
  list_at-make_endpoints asked name s =
      let lists = s.service_chan_to_bridge_endpoints in
      ground (arith, lookup-insert name asked (list_at name lists) lists, eq_iff name asked)

  open_message_bridge-opens :
      (asked name : String) (s t : PlatformServer B F M)
      → open_message_bridge name s ≡ some t
      → has_message_bridge asked t ≡ (has_message_bridge asked s || str_eq name asked)
  unfolding open_message_bridge
  open_message_bridge-opens asked name s t e = elim (Option-cases s.message_bridge_map) [
    | inl n ↦ absurd (ground (arith, n, e))
    | inr (bridges, y) ↦ ground (
      arith,
      y,
      e,
      eq_iff name asked,
      lookup-insert {V = MessageBridge M} name asked (record { payload_channel = [] }) bridges,
    )
  ]

  add_endpoint-IsBridged :
      (key : String) (template : Template) (methods : Option (List String))
      (config : RestBridgeConfig B) (s : PlatformServer B F M)
      → lookup key s.endpoint_handler_map ≡ none
      → has_message_bridge config.service_channel s ≡ true
      → IsBridged s
      → IsBridged (add_endpoint key template methods config s)
  add_endpoint-IsBridged key template methods config s fresh there before =
      let handler = build_handler config s in
      let lists = s.service_chan_to_bridge_endpoints in
      let name = config.service_channel in
      let now = list_at name lists ++ key ∷ [] in
      record {
        listed = λ asked text. ground (
          arith,
          fresh,
          before.listed asked text,
          eq_iff key text,
          eq_iff name asked,
          lookup-insert name asked now lists,
          lookup-insert key text handler s.endpoint_handler_map,
          contains_string-append text key (list_at name lists),
        );
        opened = λ asked text here. ground (
          arith,
          here,
          there,
          before.opened asked text,
          eq_iff name asked,
          lookup-insert name asked now lists,
          contains_string-append text key (list_at name lists),
        );
      }

  open-IsBridged :
      (name : String) (s t : PlatformServer B F M)
      → open_message_bridge name (make_endpoints name s) ≡ some t
      → IsBridged s
      → IsBridged t
  open-IsBridged name s t e before =
      let kept = open_message_bridge-same name (make_endpoints name s) t e in
      record {
        listed = λ asked text.
            ground (arith, kept, before.listed asked text, list_at-make_endpoints asked name s);
        opened = λ asked text here. ground (
          arith,
          kept,
          here,
          before.opened asked text,
          list_at-make_endpoints asked name s,
          open_message_bridge-opens asked name (make_endpoints name s) t e,
        );
      }

  pub add_bridge-IsBridged :
      (key : String) (template : Template) (methods : Option (List String))
      (config : RestBridgeConfig B) (s t : PlatformServer B F M)
      → add_bridge key template methods config s ≡ some t
      → IsBridged s
      → IsBridged t
  add_bridge-IsBridged key template methods config s t e before =
      elim (add_bridge-cases key template methods config s t e) [
        | inl (y, same) ↦ subst (λ u. IsBridged u) (sym same) before
        | inr (n, u, q, same) ↦
            let name = config.service_channel in
            let kept = open_message_bridge-same name (make_endpoints name s) u q in
            let there = open_message_bridge-opens name name (make_endpoints name s) u q in
            subst (λ v. IsBridged v) (sym same)
              (add_endpoint-IsBridged key template methods config u (ground (arith, kept, n))
                (ground (arith, there, eq_iff name name)) (open-IsBridged name s u q before))
      ]

  pub clear-IsBridged :
      (name : String) (s : PlatformServer B F M)
      → IsBridged s
      → IsBridged (clear_http_channel_bridges_for_service name s).1
  unfolding clear_http_channel_bridges_for_service contains_string
  clear-IsBridged name s before =
      let lists = s.service_chan_to_bridge_endpoints in
      let keys = list_at name lists in
      record {
        listed = λ asked text. ground (
          arith,
          before.listed asked text,
          before.listed name text,
          eq_iff name asked,
          owned_once name asked (handler_at text s),
          lookup-insert {V = List String} name asked [] lists,
          lookup-delete_all text keys s.endpoint_handler_map,
        );
        opened = λ asked text here. ground (
          arith,
          here,
          before.opened asked text,
          eq_iff name asked,
          lookup-insert {V = List String} name asked [] lists,
        );
      }
