-- ===== src/Plugins.antt =====
-- network/plugin_list.go: the plugins of a network by their run-time type, and in the order in
-- which they are called. Values and their run-time types are the program's, so they are parameters.
pub mod Listed
mod Tests
use noise.Base.{◌++◌, Bool, Key, List, Option, [], false, length, none, some, true, ℕ, ◌∷◌}
use noise.Base.Int.{ℤ, ltb_ℤ}
use noise.Base.Maps.{load, store}
use noise.Base.Sort.{sort}

pub record PluginInfo (P : Type 0) : Type 0 where
  pub priority : ℤ
  pub plugin : P

-- `PluginList`; a pointer to an information stands for the information, which never changes.
pub record PluginList (P T : Type 0) : Type 0 where
  pub keys : List (T × PluginInfo P)
  pub values : List (PluginInfo P)

module _ {P : Type 0} where
  -- `m.values[i].Priority < m.values[j].Priority`.
  abbrev pub lower : PluginInfo P → PluginInfo P → Bool
  lower a b = ltb_ℤ a.priority b.priority

  -- What `f` does to a state, for each plugin in order.
  unfoldable pub each_of {ℓ} : {S : Type ℓ} → List (PluginInfo P) → (P → S → S) → S → S
  each_of [] f s = s
  each_of (item ∷ items) f s = each_of items f (f item.plugin s)

module _ {P T : Type 0} where
  unfoldable pub new_plugin_list : PluginList P T
  new_plugin_list = record { keys = []; values = [] }

  unfoldable pub sort_by_priority : PluginList P T → PluginList P T
  sort_by_priority m = record m { values = sort lower m.values }

  unfoldable pub each {ℓ} : {S : Type ℓ} → PluginList P T → (P → S → S) → S → S
  unfolding each_of
  each m f s = each_of m.values f s

  unfoldable pub plugin_count : PluginList P T → ℕ
  plugin_count m = length m.keys

module _ {P T : Type 0} ⦃key : Key T⦄ (type_of : P → T) where
  unfoldable pub put_info : PluginList P T → PluginInfo P → PluginList P T × Bool
  unfolding load store
  put_info m plugin =
      let ty = type_of plugin.plugin in
      elim (load ty m.keys) [
        | some old ↦ (m, false)
        | none ↦
            (record { keys = store ty plugin m.keys; values = m.values ++ (plugin ∷ []) }, true)
      ]

  unfoldable pub put : PluginList P T → ℤ → P → PluginList P T × Bool
  unfolding put_info
  put m priority plugin = put_info m (record { priority = priority; plugin = plugin })

  unfoldable pub get_info : PluginList P T → P → Option (PluginInfo P)
  unfolding load
  get_info m with_ty = load (type_of with_ty) m.keys

  unfoldable pub get : PluginList P T → P → Option P
  unfolding get_info
  get m with_ty = elim (get_info m with_ty) [ some info ↦ some info.plugin | none ↦ none ]
