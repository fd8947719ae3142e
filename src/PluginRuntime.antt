-- ===== src/PluginRuntime.antt =====
-- internal/pluginrt/runtime.go: the registry of plugins. Entries live on a heap, since `Unregister`
-- keeps its pointer to an entry while it waits and the map may meanwhile hold another one.
-- Each function is one section under the mutex; `Unregister` gives the mutex up only in
-- `cond.Wait`, so it is `unregister` up to the first wait and `wake` from there.
pub mod Chain
pub mod Invariant
pub mod Draining
pub mod Races
mod Examples
use api_x.Base.{
  ℕ, zero, suc, ◌+◌, Text, Bool, true, false, Option, none, some, List, [], ◌∷◌, ◌++◌, ◌==◌,
  if◌then◌else◌,
}
use api_x.Base.Int.{ℤ, pos, negsuc}
use api_x.Base.Strings.{text_eq}
use api_x.Plugin.{ProxyRequest, ProxyResponse}

-- What a hook does in one call: the replacement or `nil`, an error, or a panic.
pub data Outcome (A : Type 0) : Type 0 where
  returns : Option A → Outcome A
  fails : Text → Outcome A
  panics : Text → Outcome A

-- A hook that the plugin does not implement is `none`.
pub record Plugin : Type 0 where
  pub name : Text
  pub version : Text
  pub description : Text
  pub request_hook : Option (ProxyRequest → Outcome ProxyRequest)
  pub response_hook : Option (ProxyRequest → ProxyResponse → Outcome ProxyResponse)

pub record Entry : Type 0 where
  pub plugin : Plugin
  pub in_flight : ℤ
  pub draining : Bool

pub record Runtime : Type 0 where
  pub plugins : Text → Option ℕ  -- name → address of its entry
  pub heap : ℕ → Entry
  pub next : ℕ  -- the first address that is free
  pub order : List Text
  pub waiting : List (Text × ℕ)  -- the calls of `Unregister` that are in `cond.Wait`

pub data Error : Type 0 where
  already_registered not_found : Text → Error

abbrev pub bind_name {ℓ} : {A : Type ℓ} → (Text → A) → Text → A → Text → A
bind_name f k v j = if text_eq k j then v else f j

abbrev pub store : (ℕ → Entry) → ℕ → Entry → ℕ → Entry
store h a e b = if a == b then e else h b

abbrev pub succ_ℤ : ℤ → ℤ
succ_ℤ (pos n) = pos (suc n)
succ_ℤ (negsuc zero) = pos 0
succ_ℤ (negsuc (suc n)) = negsuc n

abbrev pub pred_ℤ : ℤ → ℤ
pred_ℤ (pos zero) = negsuc 0
pred_ℤ (pos (suc n)) = pos n
pred_ℤ (negsuc n) = negsuc (suc n)

abbrev pub is_pos : ℤ → Bool
is_pos (pos (suc n)) = true
is_pos _ = false

-- `NewRuntime`; what stands at a free address is never read
abbrev pub new_runtime : Runtime
new_runtime = record {
  plugins = λ name. none;
  heap = λ a. record {
    plugin = record {
      name = [];
      version = [];
      description = [];
      request_hook = none;
      response_hook = none;
    };
    in_flight = pos 0;
    draining = false;
  };
  next = 0;
  order = [];
  waiting = [];
}

register_at : Option ℕ → Plugin → Runtime → Runtime × Option Error
register_at (some a) p r = (r, some (already_registered p.name))
register_at none p r = (
  record r {
    plugins = bind_name r.plugins p.name (some r.next);
    heap = store r.heap r.next (record { plugin = p; in_flight = pos 0; draining = false });
    next = suc r.next;
    order = r.order ++ p.name ∷ [];
  },
  none,
)

-- `Register`
unfoldable pub register : Plugin → Runtime → Runtime × Option Error
unfolding register_at
register p r = register_at (r.plugins p.name) p r

-- The loop of `Unregister` that takes the first occurrence out of the order.
unfoldable pub remove_first : Text → List Text → List Text
remove_first k [] = []
remove_first k (j ∷ js) = if text_eq j k then js else j ∷ remove_first k js

unregister_at : Option ℕ → Text → Runtime → Runtime × Option Error
unfolding remove_first
unregister_at none name r = (r, some (not_found name))
unregister_at (some a) name r =
    let r' = record r {
      heap = store r.heap a (record (r.heap a) { draining = true });
      order = remove_first name r.order;
    } in
    if is_pos (r.heap a).in_flight
    then (record r' { waiting = (name, a) ∷ r.waiting }, none)
    else (record r' { plugins = bind_name r.plugins name none }, none)

-- `Unregister`, up to its first `cond.Wait` or, if nothing is in flight, to its end
unfoldable pub unregister : Text → Runtime → Runtime × Option Error
unfolding unregister_at
unregister name r = unregister_at (r.plugins name) name r

-- A waiting `Unregister` that the broadcast woke: the test of its loop, then `delete`.
-- `rest` are the other waiting calls.
unfoldable pub wake : Text → ℕ → List (Text × ℕ) → Runtime → Runtime
wake name a rest r =
    if is_pos (r.heap a).in_flight
    then r
    else record r { plugins = bind_name r.plugins name none; waiting = rest }

-- `entry.inFlight++`
use_entry : ℕ → Runtime → Runtime
use_entry a r = record r {
  heap = store r.heap a (record (r.heap a) { in_flight = succ_ℤ (r.heap a).in_flight });
}

begin_at : Option ℕ → Runtime → Runtime × Option Plugin
unfolding use_entry
begin_at none r = (r, none)
begin_at (some a) r =
    if (r.heap a).draining then (r, none) else (use_entry a r, some (r.heap a).plugin)

-- `beginPluginUse`
unfoldable pub begin_plugin_use : Text → Runtime → Runtime × Option Plugin
unfolding begin_at
begin_plugin_use name r = begin_at (r.plugins name) r

done_at : Option ℕ → Runtime → Runtime
done_at none r = r
done_at (some a) r = record r {
  heap = store r.heap a (record (r.heap a) { in_flight = pred_ℤ (r.heap a).in_flight });
}

-- The function that `beginPluginUse` returns.
unfoldable pub done : Text → Runtime → Runtime
unfolding done_at
done name r = done_at (r.plugins name) r

pub record PluginMeta : Type 0 where
  pub name : Text
  pub version : Text
  pub description : Text
  pub enabled : Bool

abbrev meta_of : Plugin → PluginMeta
meta_of p = record {
  name = p.name;
  version = p.version;
  description = p.description;
  enabled = true;
}

abbrev cons_meta : Option ℕ → Runtime → Option (List PluginMeta) → Option (List PluginMeta)
cons_meta (some a) r (some metas) = some (meta_of (r.heap a).plugin ∷ metas)
cons_meta _ _ _ = none

list_from : List Text → Runtime → Option (List PluginMeta)
list_from [] r = some []
list_from (name ∷ names) r = cons_meta (r.plugins name) r (list_from names r)

-- `List`; `none` is the panic on a name of the order that the map does not have
unfoldable pub list : Runtime → Option (List PluginMeta)
unfolding list_from
list r = list_from r.order r
