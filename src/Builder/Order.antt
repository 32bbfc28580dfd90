-- ===== src/Builder/Order.antt =====
-- The order of the plugins of network/builder.go that are added without a priority.
use noise.Peer.{create_id}
use noise.Network.State.{Network}
use noise.Crypto.{KeyPair}
use noise.Lru.{Cache}
use noise.Address.{NetPackage, to_unified_address}
use noise.Base.Maps.{load, load-store_ne, store, load-nil}
use noise.Builder.{
  add_plugin, Builder, plugins_of, add_plugin_with_priority, put, plugged, NetPackage, counted,
  build, PluginList, build_with, network_of, sort_by_priority, Cache, KeyPair, Network, create_id,
  new_plugin_list, build_keys,
}
use noise.Base.Int.{pos}
use noise.Base.Sort.{sort, IsSorted, insert}
use noise.Plugins.{PluginInfo, lower, put, put_info, PluginList, sort_by_priority, new_plugin_list}
use noise.Base.{
  number_Key, bytes_Key, Bytes, List, length, ◌+◌, ◌++◌, All, Bool, [], ap, arith, false, none,
  refl, ℕ, ◌∷◌, ◌≡◌, ◌≢◌, ◌≤◌, append-nil, append_assoc, some, sym, ◌∙◌, ◌<◌, done, ok, true,
  nat_beq, subst, ◌>>=◌,
}

module _ {P : Type 0} (type_of : P → ℕ) where
  -- No two plugins have one type.
  unfoldable pub Apart : List P → Type 0
  Apart [] = Unit
  Apart (p ∷ ps) = All (λ q. type_of q ≢ type_of p) ps × Apart ps

-- Plugins with the priorities `n`, `n + 1` and so on.
unfoldable pub prioritised : {P : Type 0} → ℕ → List P → List (PluginInfo P)
prioritised n [] = []
prioritised n (p ∷ ps) = record { priority = pos n; plugin = p } ∷ prioritised (n + 1) ps

-- The plugins in the order in which they are called.
unfoldable pub in_order : {P : Type 0} → List (PluginInfo P) → List P
in_order [] = []
in_order (i ∷ is) = i.plugin ∷ in_order is

sort-sorted :
    {A : Type 0} (less : A → A → Bool) (xs : List A) → IsSorted less xs → sort less xs ≡ xs
unfolding sort insert
sort-sorted less [] s = refl
sort-sorted less (x ∷ []) s = refl
sort-sorted less (x ∷ y ∷ ys) (h, s) = rw (sort-sorted less (y ∷ ys) s, h.0) refl

prioritised-above :
    {P : Type 0} (n m : ℕ) (i : PluginInfo P) (ps : List P)
    → i.priority ≡ pos n
    → n ≤ m
    → All (λ j. lower j i ≡ false) (prioritised m ps)
unfolding prioritised
prioritised-above n m i [] e h = tt
prioritised-above n m i (p ∷ ps) e h =
    (rw e (ground arith), prioritised-above n (m + 1) i ps e (omega arith))

prioritised-IsSorted : {P : Type 0} (n : ℕ) (ps : List P) → IsSorted lower (prioritised n ps)
unfolding prioritised
prioritised-IsSorted n [] = tt
prioritised-IsSorted n (p ∷ ps) = (
  prioritised-above n (n + 1) (record { priority = pos n; plugin = p }) ps refl (omega arith),
  prioritised-IsSorted (n + 1) ps,
)

in_order-prioritised : {P : Type 0} (n : ℕ) (ps : List P) → in_order (prioritised n ps) ≡ ps
unfolding in_order prioritised
in_order-prioritised n [] = refl
in_order-prioritised n (p ∷ ps) = ap (λ l. p ∷ l) (in_order-prioritised (n + 1) ps)

module _ {P L E : Type 0} (type_of : P → ℕ) where
  -- Plugins added one after the other, whatever the errors.
  unfoldable pub add_plugins : Builder P L E → List P → Builder P L E
  unfolding add_plugin
  add_plugins b [] = b
  add_plugins b (p ∷ ps) = add_plugins (add_plugin type_of b p).0 ps

  -- None of the plugins' types is in a builder.
  abbrev New : Builder P L E → List P → Type 0
  New b ps = All (λ p. load (type_of p) (plugins_of b).keys ≡ none) ps

  -- The builder to which a plugin of a new type is added.
  grown : Builder P L E → P → Builder P L E
  unfolding plugins_of
  grown b p =
      let i : PluginInfo P = record { priority = pos b.plugin_count; plugin = p } in
      record b {
        plugins = some (record {
          keys = store (type_of p) i (plugins_of b).keys;
          values = (plugins_of b).values ++ (i ∷ []);
        });
        plugin_count = b.plugin_count + 1;
      }

  put-grown :
      (b : Builder P L E) (p : P)
      → load (type_of p) (plugins_of b).keys ≡ none
      → put type_of (plugins_of b) (pos b.plugin_count) p ≡ (plugins_of (grown b p), true)
  unfolding put put_info grown plugins_of
  put-grown b p free = rw (free, put_info) refl

  add_plugin-grown :
      (b : Builder P L E) (p : P)
      → load (type_of p) (plugins_of b).keys ≡ none
      → add_plugin type_of b p ≡ (grown b p, none)
  unfolding add_plugin add_plugin_with_priority plugged counted grown plugins_of
  add_plugin-grown b p free = ap (λ x. counted (plugged b (type_of p) x)) (put-grown b p free)

  New-grown :
      (b : Builder P L E) (p : P) (ps : List P)
      → All (λ q. type_of q ≢ type_of p) ps
      → New b ps
      → New (grown b p) ps
  unfolding grown plugins_of
  New-grown b p [] a n = tt
  New-grown b p (q ∷ ps) (ne, a) (free, n) =
      (load-store_ne (type_of q) (type_of p) _ (plugins_of b).keys ne ∙ free, New-grown b p ps a n)

  add_plugins-prioritised :
      (b : Builder P L E) (ps : List P)
      → Apart type_of ps
      → New b ps
      → (plugins_of (add_plugins b ps)).values
        ≡ (plugins_of b).values ++ prioritised b.plugin_count ps
  unfolding add_plugins grown Apart prioritised
  add_plugins-prioritised b [] a n = sym (append-nil (plugins_of b).values)
  add_plugins-prioritised b (p ∷ ps) (a, apart) (free, n) = rw (add_plugin-grown b p free) (
      add_plugins-prioritised (grown b p) ps apart (New-grown b p ps a n)
      ∙ append_assoc (plugins_of b).values _ _)

  -- Only the plugins and their count change.
  record Same (b b' : Builder P L E) : Type 0 where
    keys : b'.keys ≡ b.keys
    address : b'.address ≡ b.address

  plugged-Same :
      (b : Builder P L E) (t : ℕ) (x : PluginList P ℕ × Bool) → Same b (counted (plugged b t x)).0
  unfolding plugged counted
  plugged-Same b t (m, true) = record { keys = refl; address = refl }
  plugged-Same b t (m, false) = record { keys = refl; address = refl }

  add_plugins-Same : (b : Builder P L E) (ps : List P) → Same b (add_plugins b ps)
  unfolding add_plugins add_plugin add_plugin_with_priority
  add_plugins-Same b [] = record { keys = refl; address = refl }
  add_plugins-Same b (p ∷ ps) =
      let s = plugged-Same b (type_of p) (put type_of (plugins_of b) (pos b.plugin_count) p) in
      let t = add_plugins-Same (add_plugin type_of b p).0 ps in
      record { keys = t.keys ∙ s.keys; address = t.address ∙ s.address }

  plugins_of-none : (b : Builder P L E) → b.plugins ≡ none → plugins_of b ≡ new_plugin_list
  unfolding plugins_of
  plugins_of-none b e = rw (e, plugins_of) refl

  New-none : (b : Builder P L E) (ps : List P) → b.plugins ≡ none → New b ps
  unfolding new_plugin_list
  New-none b [] e = tt
  New-none b (p ∷ ps) e = (
    ap (λ (m : PluginList P ℕ). load (type_of p) m.keys) (plugins_of-none b e)
        ∙ load-nil (type_of p),
    New-none b ps e,
  )

  -- The plugins of a builder that had none.
  add_plugins-values :
      (b : Builder P L E) (ps : List P)
      → b.plugins ≡ none
      → b.plugin_count ≡ 0
      → Apart type_of ps
      → (plugins_of (add_plugins b ps)).values ≡ prioritised 0 ps
  unfolding new_plugin_list
  add_plugins-values b ps e z a =
      add_plugins-prioritised b ps a (New-none b ps e)
      ∙ ap (λ (m : PluginList P ℕ). m.values ++ prioritised b.plugin_count ps) (plugins_of-none b e)
      ∙ ap (λ n. prioritised n ps) z

module _ {M P L E : Type 0} (go : NetPackage E) (hash_id : Bytes → Bytes) where
  build-ok :
      (hosts hosts' : Cache Bytes) (c : Builder P L E) (keys : KeyPair) (unified : Bytes)
      → c.keys ≡ some keys
      → 0 < length c.address
      → to_unified_address go hosts c.address ≡ done (hosts', ok unified)
      → build {M = M} go hash_id hosts c
        ≡ done (
          hosts',
          record c { plugins = some (sort_by_priority (plugins_of c)) },
          ok (
              network_of go hash_id
                (record c { plugins = some (sort_by_priority (plugins_of c)) })
                (sort_by_priority (plugins_of c))
                keys
                unified
                hosts'),
        )
  unfolding build build_keys build_with
  build-ok hosts hosts' c keys unified k a u =
      let z : nat_beq (length c.address) 0 ≡ false = ground (arith, a) in
      ap (build_keys go hash_id hosts c) k ∙ rw (z, u, ◌>>=◌) refl

module _ {M P L E : Type 0} (type_of : P → ℕ) (go : NetPackage E) (hash_id : Bytes → Bytes) where
  -- After AddPlugin of plugins of different types to a builder that had none, with keys and an
  -- address that resolves, Build returns a network of that address and those keys, with the
  -- identity of both, whose plugins are called in the order in which they were added.
  pub build-add_plugins :
      (hosts hosts' : Cache Bytes) (b : Builder P L E) (keys : KeyPair) (unified : Bytes)
      (ps : List P)
      → b.plugins ≡ none
      → b.plugin_count ≡ 0
      → Apart type_of ps
      → b.keys ≡ some keys
      → 0 < length b.address
      → to_unified_address go hosts b.address ≡ done (hosts', ok unified)
      → (b' : Builder P L E) × (net : Network M P L) × (build go hash_id hosts
            (add_plugins type_of b ps)
          ≡ done (hosts', b', ok net))
        × (in_order net.plugins.values ≡ ps)
        × (net.address ≡ unified)
        × (net.keys ≡ keys)
        × (net.id ≡ create_id hash_id unified keys.public_key)
  unfolding build build_with network_of sort_by_priority
  build-add_plugins hosts hosts' b keys unified ps none' zero' apart k a u =
      let s = add_plugins-Same type_of b ps in
      let c = add_plugins type_of b ps in
      let values : (plugins_of c).values ≡ prioritised 0 ps =
        add_plugins-values type_of b ps none' zero' apart in
      (
        record c { plugins = some (sort_by_priority (plugins_of c)) },
        network_of go hash_id (record c { plugins = some (sort_by_priority (plugins_of c)) })
            (sort_by_priority (plugins_of c)) keys unified hosts',
        build-ok go hash_id hosts hosts' c keys unified (s.keys ∙ k)
            (subst (λ d. 0 < length d) (sym s.address) a)
            (ap (to_unified_address go hosts) s.address ∙ u),
        ap in_order (
              ap (sort lower) values
              ∙ sort-sorted lower (prioritised 0 ps) (prioritised-IsSorted 0 ps))
            ∙ in_order-prioritised 0 ps,
        refl,
        refl,
        refl,
      )
