-- ===== src/Plugins/Listed.antt =====
-- The two views of a plugin list agree, and sorting keeps plugins of one priority in the order in
-- which they were added.
use noise.Base.{
  ◌&&◌, ◌++◌, All, Any, Key, List, [], arith, false, inl, inr, length, none, refl, some, suc, sym,
  true, ◌∙◌, ◌∷◌, ◌≡◌, ◌≢◌, ◌⊎◌, ◌==◌, All-append, All-mono, Bool-cases, Option-cases, ap,
  length-append, subst,
}
use noise.Base.Int.{ℤ, leb_ℤ, ◌≤ℤ◌}
use noise.Base.Maps.{load, load-store, load-nil, store, delete, load-store_self, load-store_ne}
use noise.Base.Sort.{
  sort, keep, IsSorted, sort-perm, sort-IsSorted, keep-sort, sort-Any, sort-All, length-sort,
}
use noise.Plugins.{
  PluginInfo, PluginList, new_plugin_list, lower, sort_by_priority, plugin_count, put_info, put,
  get_info, get,
}
use mathlib.Core.List.{Perm}

-- Each priority is at most those behind it.
abbrev pub Ascends : {P : Type 0} → List (PluginInfo P) → Type 0
Ascends [] = Unit {0}
Ascends (i ∷ is) = All (λ j. i.priority ≤ℤ j.priority) is × Ascends is

IsSorted-Ascends : {P : Type 0} (is : List (PluginInfo P)) → IsSorted lower is → Ascends is
IsSorted-Ascends [] s = tt
IsSorted-Ascends (i ∷ is) (h, s) = (
  All-mono (λ j. lower j i ≡ false) (λ j. i.priority ≤ℤ j.priority) is (λ j e. ground (arith, e)) h,
  IsSorted-Ascends is s,
)

module _ {P T : Type 0} ⦃key : Key T⦄ (type_of : P → T) where
  -- Each type has one plugin, under its type and in the list.
  pub record IsPlugins (m : PluginList P T) : Type 0 where
    pub keyed : All (λ v. load (type_of v.plugin) m.keys ≡ some v) m.values
    pub listed :
        (t : T) (v : PluginInfo P)
        → load t m.keys ≡ some v
        → (type_of v.plugin ≡ t) × Any (λ w. w ≡ v) m.values
    pub as_long : plugin_count m ≡ length m.values

  pub new_plugin_list-IsPlugins : IsPlugins new_plugin_list
  unfolding new_plugin_list plugin_count
  new_plugin_list-IsPlugins = record {
    keyed = tt;
    listed = λ t v h. ground (arith, h, load-nil {V = PluginInfo P} t);
    as_long = refl;
  }

  fresh_delete {κ} : {V : Type κ} (t : T) (m : List (T × V)) → load t m ≡ none → delete t m ≡ m
  unfolding load delete
  fresh_delete t [] h = refl
  fresh_delete t ((j, v) ∷ m) h = ground (arith, fresh_delete t m)

  Any-append :
      (Q : PluginInfo P → Type 0) (xs ys : List (PluginInfo P))
      → Any Q xs ⊎ Any Q ys
      → Any Q (xs ++ ys)
  Any-append Q [] ys (inl h) = absurd h
  Any-append Q [] ys (inr h) = h
  Any-append Q (x ∷ xs) ys (inl (inl h)) = inl h
  Any-append Q (x ∷ xs) ys (inl (inr h)) = inr (Any-append Q xs ys (inl h))
  Any-append Q (x ∷ xs) ys (inr h) = inr (Any-append Q xs ys (inr h))

  added_listed :
      (m : PluginList P T) (i : PluginInfo P) (t : T) (j : PluginInfo P)
      → IsPlugins m
      → load t (store (type_of i.plugin) i m.keys) ≡ some j
      → (type_of j.plugin ≡ t) × Any (λ w. w ≡ j) (m.values ++ (i ∷ []))
  added_listed m i t j v h = elim (Bool-cases (t == type_of i.plugin)) [
    | inl e ↦
        let here : i ≡ j = ground (arith, e, h, load-store t (type_of i.plugin) i m.keys) in
        (
          subst (λ w. type_of w.plugin ≡ t) here (sym ((key.same_iff t (type_of i.plugin)).0 e)),
          Any-append (λ w. w ≡ j) m.values (i ∷ []) (inr (inl here)),
        )
    | inr ne ↦
        let old = v.listed t j (ground (arith, ne, h, load-store t (type_of i.plugin) i m.keys)) in
        (old.0, Any-append (λ w. w ≡ j) m.values (i ∷ []) (inl old.1))
  ]

  -- The list with one more plugin.
  added : PluginList P T → PluginInfo P → PluginList P T
  added m i = record { keys = store (type_of i.plugin) i m.keys; values = m.values ++ (i ∷ []) }

  added-IsPlugins :
      (m : PluginList P T) (i : PluginInfo P)
      → load (type_of i.plugin) m.keys ≡ none
      → IsPlugins m
      → IsPlugins (added m i)
  unfolding added plugin_count store
  added-IsPlugins m i free v = record {
    keyed =
        All-append (λ w. load (type_of w.plugin) (store (type_of i.plugin) i m.keys) ≡ some w)
          m.values (i ∷ [])
          (All-mono (λ w. load (type_of w.plugin) m.keys ≡ some w) _ m.values
            (λ w h.
              load-store_ne (type_of w.plugin) (type_of i.plugin) i m.keys
                (λ e. absurd (ground (arith, e, h, free)))
              ∙ h)
            v.keyed)
          (load-store_self (type_of i.plugin) i m.keys, tt);
    listed = λ t j h. added_listed m i t j v h;
    as_long = omega (
      arith,
      v.as_long,
      ap (λ (l : List (T × PluginInfo P)). length l) (fresh_delete (type_of i.plugin) m.keys free),
      length-append m.values (i ∷ []),
    );
  }

  -- On a well-formed list, Put either adds a plugin of a new type and leaves the list well formed,
  -- so that Get finds it, Len counts it and other types keep their plugins; or the type has a
  -- plugin, and Put returns false and changes nothing.
  pub put-IsPlugins :
      (m : PluginList P T) (priority : ℤ) (plugin : P)
      → IsPlugins m
      → ((m' : PluginList P T) × (put type_of m priority plugin ≡ (m', true))
          × IsPlugins m'
          × (get type_of m plugin ≡ none)
          × (get type_of m' plugin ≡ some plugin)
          × (plugin_count m' ≡ suc (plugin_count m))
          × ((p : P) → type_of p ≢ type_of plugin → get type_of m' p ≡ get type_of m p))
        ⊎ ((old : P) × (get type_of m plugin ≡ some old)
            × (put type_of m priority plugin ≡ (m, false)))
  unfolding put put_info get get_info added plugin_count store
  put-IsPlugins m priority plugin v = elim (Option-cases (load (type_of plugin) m.keys)) [
    | inr (old, used) ↦ inr (old.plugin, rw (used, get) refl, rw (used, put_info) refl)
    | inl free ↦
        let i : PluginInfo P = record { priority = priority; plugin = plugin } in
        inl (
          added m i,
          rw (free, put_info) refl,
          added-IsPlugins m i free v,
          rw (free, get) refl,
          rw (load-store_self (type_of plugin) i m.keys, get) refl,
          ap (λ (l : List (T × PluginInfo P)). suc (length l))
              (fresh_delete (type_of plugin) m.keys free),
          λ p ne. rw (load-store_ne (type_of p) (type_of plugin) i m.keys ne, get) refl,
        )
  ]

  -- SortByPriority keeps a well-formed list well formed and its plugins the same, in ascending
  -- priority, and those of one priority in the order they had.
  pub sort_by_priority-IsPlugins :
      (m : PluginList P T)
      → IsPlugins m
      → IsPlugins (sort_by_priority m)
        × Ascends (sort_by_priority m).values
        × Perm (sort_by_priority m).values m.values
        × ((p : ℤ)
            → keep (λ i. leb_ℤ i.priority p && leb_ℤ p i.priority) (sort_by_priority m).values
              ≡ keep (λ i. leb_ℤ i.priority p && leb_ℤ p i.priority) m.values)
  unfolding sort_by_priority plugin_count
  sort_by_priority-IsPlugins m v = (
    record {
      keyed = sort-All lower (λ v. load (type_of v.plugin) m.keys ≡ some v) m.values v.keyed;
      listed =
          λ t i h. ((v.listed t i h).0, sort-Any lower (λ w. w ≡ i) m.values (v.listed t i h).1);
      as_long = v.as_long ∙ sym (length-sort lower m.values);
    },
    IsSorted-Ascends (sort lower m.values)
        (sort-IsSorted lower (λ x y h. ground arith) (λ x y z h k. ground arith) m.values),
    sort-perm lower m.values,
    λ p.
        keep-sort lower (λ i. leb_ℤ i.priority p && leb_ℤ p i.priority) (λ x y h k. ground arith)
          m.values,
  )
