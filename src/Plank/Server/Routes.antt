-- ===== src/Plank/Server/Routes.antt =====
-- The routes that plank/pkg/server/server.go registers with `mux` and reads back. `mux` is known by
-- what is registered with it: a router is the list of its routes, in order, which `Walk` visits.
-- Which path templates it accepts is a parameter: a route whose template it refuses has an error
-- from then on, and keeps nothing of the calls on it that follow.
use Prim.Native.String.{String}
use transport_go.Prelude.{ℕ, Bool, Option, none, some, List, [], ◌∷◌, ◌++◌, if◌then◌else◌}
use transport_go.Prelude.GoMap.{GoMap, delete}
use transport_go.Plank.Utils.{contains_string}

-- A `http.HandlerFunc`: nil, one that `buildEndpointHandler` made for a service channel with a
-- builder and a time-out in minutes, which takes the messages of the bridge of that channel, or
-- another one.
pub data HandlerFunc (B F : Type 0) : Type 0 where
  no_handler : HandlerFunc B F
  endpoint : String → B → ℕ → HandlerFunc B F
  other : F → HandlerFunc B F

pub data Template : Type 0 where
  path path_prefix : String → Template

abbrev pub text_of : Template → String
text_of (path text) = text
text_of (path_prefix text) = text

-- A route without a name is `none`, and so is one whose methods were not restricted.
pub record Route (B F : Type 0) : Type 0 where
  pub name : Option String
  pub template : Template
  pub methods : Option (List String)
  pub handler : HandlerFunc B F

unfoldable pub delete_all : {V : Type 0} → List String → GoMap V → GoMap V
delete_all [] m = m
delete_all (key ∷ keys) m = delete_all keys (delete key m)

module _ {B F : Type 0} where
  -- `Path` or `PathPrefix` on a new route, and then the other calls.
  abbrev pub add_route : (Template → Bool) → Route B F → List (Route B F) → List (Route B F)
  add_route accepts r routes =
      routes
      ++ (if accepts r.template
          then r
          else record { name = none; template = path ""; methods = none; handler = no_handler })
        ∷ []

  -- `newRouter.Name(name).Path(path).Methods(methods...).Handler(handler)`
  abbrev pub copy_route : (Template → Bool) → Route B F → Route B F
  copy_route accepts r =
      let name = some (elim r.name [ none ↦ "" | some text ↦ text ]) in
      if accepts (path (text_of r.template))
      then record {
        name = name;
        template = path (text_of r.template);
        methods = some (elim r.methods [ none ↦ [] | some methods ↦ methods ]);
        handler = r.handler;
      }
      else record { name = name; template = path ""; methods = none; handler = no_handler }

  abbrev pub has_name_of : List String → Route B F → Bool
  has_name_of keys r = contains_string (elim r.name [ none ↦ "" | some text ↦ text ]) keys

  unfoldable pub copy_routes : (Template → Bool) → List String → List (Route B F) → List (Route B F)
  copy_routes accepts keys [] = []
  copy_routes accepts keys (r ∷ routes) =
      let below = copy_routes accepts keys routes in
      if has_name_of keys r then below else copy_route accepts r ∷ below
