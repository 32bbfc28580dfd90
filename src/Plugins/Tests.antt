-- ===== src/Plugins/Tests.antt =====
-- Plugins whose types are numbers: each plugin its type and a name.
use noise.Plugins.Listed.{
  Ascends, IsPlugins, new_plugin_list-IsPlugins, put-IsPlugins, sort_by_priority-IsPlugins,
}
use noise.Plugins.{
  new_plugin_list, PluginList, each, put, put_info, sort_by_priority, get, get_info, plugin_count,
  each_of,
}
use noise.Base.Int.{ℤ, pos, negsuc, leb_ℤ}
use noise.Base.{
  number_Key, ◌&&◌, ◌++◌, [], false, inl, inr, none, refl, some, suc, true, ℕ, ◌∷◌, ◌≡◌, ◌≢◌, ◌⊎◌,
}
use noise.Base.Maps.{load, store, delete}
use noise.Base.Sort.{sort, insert, keep}
use mathlib.Core.List.{Perm}

program : Unit {0}
unfolding load store delete new_plugin_list put put_info get get_info each each_of sort insert
    sort_by_priority
program = tt

abbrev Sample : Type 0
Sample = ℕ × ℕ

abbrev kind : Sample → ℕ
kind (t, name) = t

abbrev empty : PluginList Sample ℕ
empty = new_plugin_list

empty-IsPlugins : IsPlugins kind empty
empty-IsPlugins = new_plugin_list-IsPlugins kind

-- Three plugins, the last two of one priority.
abbrev three : PluginList Sample ℕ
three =
    (put kind (put kind (put kind empty (pos 5) (1, 10)).0 (negsuc 2) (2, 20)).0 (negsuc 2)
      (3, 30)).0

sorted_calls : each (sort_by_priority three) (λ p s. s ++ (kind p ∷ [])) [] ≡ 2 ∷ 3 ∷ 1 ∷ []
unfolding program
sorted_calls = refl

second_put : (put kind three (pos 0) (2, 99)).1 ≡ false
unfolding program
second_put = refl

put-IsPlugins_example :
    ((m' : PluginList Sample ℕ) × (put kind empty (pos 5) (1, 10) ≡ (m', true))
      × IsPlugins kind m'
      × (get kind empty (1, 10) ≡ none)
      × (get kind m' (1, 10) ≡ some (1, 10))
      × (plugin_count m' ≡ suc (plugin_count empty))
      × ((p : Sample) → kind p ≢ 1 → get kind m' p ≡ get kind empty p))
    ⊎ ((old : Sample) × (get kind empty (1, 10) ≡ some old)
        × (put kind empty (pos 5) (1, 10) ≡ (empty, false)))
put-IsPlugins_example = put-IsPlugins kind empty (pos 5) (1, 10) empty-IsPlugins

one : (m' : PluginList Sample ℕ) × IsPlugins kind m'
one = elim (put-IsPlugins kind empty (pos 5) (1, 10) empty-IsPlugins) [
  | inl added ↦ (added.0, added.2)
  | inr old ↦ (empty, empty-IsPlugins)
]

sort_by_priority-IsPlugins_example :
    IsPlugins kind (sort_by_priority one.0)
    × Ascends (sort_by_priority one.0).values
    × Perm (sort_by_priority one.0).values (one.0).values
    × ((p : ℤ)
        → keep (λ i. leb_ℤ i.priority p && leb_ℤ p i.priority) (sort_by_priority one.0).values
          ≡ keep (λ i. leb_ℤ i.priority p && leb_ℤ p i.priority) (one.0).values)
sort_by_priority-IsPlugins_example = sort_by_priority-IsPlugins kind one.0 one.1
