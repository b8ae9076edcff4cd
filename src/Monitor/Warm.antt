-- ===== src/Monitor/Warm.antt =====
-- Warming one key of an engine that knows others: rows of a key touch that key alone, and do to it
-- what they do to an engine that knows nothing.
use mathlib.Core.Option
use mathlib.Core.Path.{subst}
use better_nm.Prelude.{
  String, List, [], ◌∷◌, false, ◌||◌, Option, lookup, insert, All, lookup-insert, str_eq, ◌≡◌, inl,
  inr, refl, sym, ap, ◌∙◌, arith, eq_iff, Bool-cases,
}
use better_nm.Core.Monitor.{Sample, Baseline, idle}
use better_nm.Monitor.Floats.{Floats}
use better_nm.Monitor.Anchor.{AnchorState}
use better_nm.Monitor.Engine.{KeyState, Engine, key_of}
use better_nm.Monitor.Load.{
  touch, put_anchor, load_sample, load_samples, load_baseline, load_baselines, restore_key,
  restore_keys, insert_sample, sort_samples, load,
}

module _ {F : Type 0} where
  -- Two stages of a warm start that agree on the key, and touched it alone.
  pub record Agrees (key : String) (d e : Engine F) (old : String → Option (KeyState F))
      : Type 0 where
    pub config : d.config ≡ e.config
    pub at_key : lookup key d.keys ≡ lookup key e.keys
    pub elsewhere : (k : String) → str_eq key k ≡ false → lookup k d.keys ≡ old k

  key_of-Agrees :
      (key : String) (d e : Engine F) (old : String → Option (KeyState F))
      → Agrees key d e old
      → key_of key d ≡ key_of key e
  unfolding key_of
  key_of-Agrees key d e old g =
      ap (λ found. Option.get_or found (record { state = idle; since = 0; anchors = [] })) g.at_key

  insert-Agrees :
      (key : String) (d e : Engine F) (old : String → Option (KeyState F)) (ks ks' : KeyState F)
      → ks ≡ ks'
      → Agrees key d e old
      → Agrees key
          (record d { keys = insert key ks d.keys })
          (record e { keys = insert key ks' e.keys })
          old
  insert-Agrees key d e old ks ks' same g = record {
    config = g.config;
    at_key =
        ground (
          arith,
          lookup-insert key key ks d.keys,
          lookup-insert key key ks' e.keys,
          eq_iff key key,
        );
    elsewhere = λ k other. ground (arith, lookup-insert key k ks d.keys, g.elsewhere k other);
  }

  put_anchor-Agrees :
      (key anchor : String) (d e : Engine F) (old : String → Option (KeyState F))
      (a b : AnchorState F)
      → a ≡ b
      → Agrees key d e old
      → Agrees key (put_anchor key anchor a d) (put_anchor key anchor b e) old
  unfolding put_anchor
  put_anchor-Agrees key anchor d e old a b same g =
      insert-Agrees key d e old _ _ (ground (arith, key_of-Agrees key d e old g)) g

  module _ ⦃fl : Floats F⦄ (old : String → Option (KeyState F)) where
    -- One row: both stages take it alike.
    sample_here :
        (s : Sample F) (d e : Engine F) (touched : List String)
        → Agrees s.network_key d e old
        → Agrees s.network_key (load_sample s (d, touched)).0 (load_sample s (e, touched)).0 old
          × ((load_sample s (d, touched)).1 ≡ (load_sample s (e, touched)).1)
    unfolding load_sample
    sample_here s d e touched g =
        elim (Bool-cases (str_eq s.network_key "" || str_eq s.anchor "")) [
          | inl skip ↦ rw skip (g, refl)
          | inr go ↦ rw go (
            put_anchor-Agrees s.network_key s.anchor d e old _ _
                (ground (arith, key_of-Agrees s.network_key d e old g)) g,
            refl,
          )
        ]

    baseline_here :
        (b : Baseline F) (d e : Engine F) (touched : List String)
        → Agrees b.network_key d e old
        → Agrees b.network_key (load_baseline b (d, touched)).0 (load_baseline b (e, touched)).0 old
          × ((load_baseline b (d, touched)).1 ≡ (load_baseline b (e, touched)).1)
    unfolding load_baseline
    baseline_here b d e touched g =
        elim (Bool-cases (str_eq b.network_key "" || str_eq b.anchor "")) [
          | inl skip ↦ rw skip (g, refl)
          | inr go ↦ rw go (
            put_anchor-Agrees b.network_key b.anchor d e old _ _
                (ground (arith, key_of-Agrees b.network_key d e old g)) g,
            refl,
          )
        ]

    -- Two stages with the keys that they touched.
    abbrev Both : String → Engine F × List String → Engine F × List String → Type 0
    Both key st st' = Agrees key st.0 st'.0 old × (st.1 ≡ st'.1) × All (λ k. k ≡ key) st.1

    touch_only :
        (key : String) (ks : List String)
        → All (λ k. k ≡ key) ks
        → All (λ k. k ≡ key) (touch key ks)
    unfolding touch
    touch_only key [] h = (refl, tt)
    touch_only key (k ∷ ks) h = ground (arith, touch_only key ks h.1)

    sample_only :
        (key : String) (s : Sample F) (st : Engine F × List String)
        → s.network_key ≡ key
        → All (λ k. k ≡ key) st.1
        → All (λ k. k ≡ key) (load_sample s st).1
    unfolding load_sample
    sample_only key s (d, t) row only =
        elim (Bool-cases (str_eq s.network_key "" || str_eq s.anchor "")) [
          | inl skip ↦ rw skip only
          | inr go ↦
              rw go (subst (λ k. All (λ j. j ≡ key) (touch k t)) (sym row) (touch_only key t only))
        ]

    baseline_only :
        (key : String) (b : Baseline F) (st : Engine F × List String)
        → b.network_key ≡ key
        → All (λ k. k ≡ key) st.1
        → All (λ k. k ≡ key) (load_baseline b st).1
    unfolding load_baseline
    baseline_only key b (d, t) row only =
        elim (Bool-cases (str_eq b.network_key "" || str_eq b.anchor "")) [
          | inl skip ↦ rw skip only
          | inr go ↦
              rw go (subst (λ k. All (λ j. j ≡ key) (touch k t)) (sym row) (touch_only key t only))
        ]

    samples_Both :
        (key : String) (ss : List (Sample F)) (st st' : Engine F × List String)
        → All (λ s. s.network_key ≡ key) ss
        → Both key st st'
        → Both key (load_samples ss st) (load_samples ss st')
    unfolding load_samples
    samples_Both key [] st st' rows b = b
    samples_Both key (s ∷ ss) (d, t) (e, t') (row, rows) (g, same, only) =
        samples_Both key ss (load_sample s (d, t)) (load_sample s (e, t')) rows (
          subst (λ u. Both key (load_sample s (d, t)) (load_sample s (e, u))) same
            (let r =
                subst
                  (λ k.
                    Agrees k d e old
                    → Agrees k (load_sample s (d, t)).0 (load_sample s (e, t)).0 old
                      × ((load_sample s (d, t)).1 ≡ (load_sample s (e, t)).1))
                  row (sample_here s d e t) g in
              (r.0, r.1, sample_only key s (d, t) row only)))

    baselines_Both :
        (key : String) (bs : List (Baseline F)) (st st' : Engine F × List String)
        → All (λ b. b.network_key ≡ key) bs
        → Both key st st'
        → Both key (load_baselines bs st) (load_baselines bs st')
    unfolding load_baselines
    baselines_Both key [] st st' rows b = b
    baselines_Both key (s ∷ ss) (d, t) (e, t') (row, rows) (g, same, only) =
        baselines_Both key ss (load_baseline s (d, t)) (load_baseline s (e, t')) rows (
          subst (λ u. Both key (load_baseline s (d, t)) (load_baseline s (e, u))) same
            (let r =
                subst
                  (λ k.
                    Agrees k d e old
                    → Agrees k (load_baseline s (d, t)).0 (load_baseline s (e, t)).0 old
                      × ((load_baseline s (d, t)).1 ≡ (load_baseline s (e, t)).1))
                  row (baseline_here s d e t) g in
              (r.0, r.1, baseline_only key s (d, t) row only)))

    restore_Agrees :
        (key : String) (ks : List String) (d e : Engine F)
        → All (λ k. k ≡ key) ks
        → Agrees key d e old
        → Agrees key (restore_keys ks d) (restore_keys ks e) old
    unfolding restore_keys
    restore_Agrees key [] d e only g = g
    restore_Agrees key (k ∷ ks) d e (one, only) g = restore_Agrees key ks _ _ only (
        subst
          (λ j.
            Agrees key (record d { keys = insert j (restore_key d.config j (key_of j d)) d.keys })
              (record e { keys = insert j (restore_key e.config j (key_of j e)) e.keys }) old)
          (sym one)
          (insert-Agrees key d e old _ _
            (ap (λ c. restore_key c key (key_of key d)) g.config
              ∙ ap (restore_key e.config key) (key_of-Agrees key d e old g))
            g))

  sort-rows :
      (key : String) (ss : List (Sample F))
      → All (λ s. s.network_key ≡ key) ss
      → All (λ s. s.network_key ≡ key) (sort_samples ss)
  unfolding sort_samples
  sort-rows key [] rows = tt
  sort-rows key (s ∷ ss) (row, rows) =
      insert-rows key s (sort_samples ss) row (sort-rows key ss rows)
    where
      insert-rows :
          (key : String) (s : Sample F) (ss : List (Sample F))
          → s.network_key ≡ key
          → All (λ s. s.network_key ≡ key) ss
          → All (λ s. s.network_key ≡ key) (insert_sample s ss)
      insert-rows key s [] row rows = unfold insert_sample in (row, tt)
      insert-rows key s (t ∷ ts) row rows =
          unfold insert_sample in ground (arith, insert-rows key s ts row rows.1)

  -- Warming a key of an engine that knows others, from rows of that key.
  pub load-Agrees :
      ⦃fl : Floats F⦄ (key : String) (bs : List (Baseline F)) (ss : List (Sample F))
      (d e : Engine F) (old : String → Option (KeyState F))
      → All (λ b. b.network_key ≡ key) bs
      → All (λ s. s.network_key ≡ key) ss
      → Agrees key d e old
      → Agrees key (load bs ss d) (load bs ss e) old
  unfolding load
  load-Agrees key bs ss d e old rows_b rows_s g =
      let b =
        baselines_Both old key bs (load_samples (sort_samples ss) (d, []))
          (load_samples (sort_samples ss) (e, [])) rows_b
          (samples_Both old key (sort_samples ss) (d, []) (e, []) (sort-rows key ss rows_s)
            (g, refl, tt)) in
      subst
        (λ touched.
          Agrees key
            (restore_keys (load_baselines bs (load_samples (sort_samples ss) (d, []))).1
              (load_baselines bs (load_samples (sort_samples ss) (d, []))).0)
            (restore_keys touched (load_baselines bs (load_samples (sort_samples ss) (e, []))).0)
            old)
        b.1 (restore_Agrees old key _ _ _ b.2 b.0)
