-- ===== src/Transport/Pci/Bars/Scanned.antt =====
-- What `bars` of src/transport/pci/bus.rs reports of the six registers.
use virtio_drivers_and_devic.Prelude.{
  ℕ, zero, suc, ◌+◌, ◌<◌, ◌≡◌, inl, inr, refl, sym, ap, ◌∙◌, append_assoc, arith, ltb, true, false,
  Bool-cases, Option, some, none, List, [], ◌∷◌, ◌++◌, length, set, replicate, length-append,
  length-replicate,
}
use virtio_drivers_and_devic.Error.{Run, ok}
use virtio_drivers_and_devic.Transport.Pci.{DeviceFunction, ConfigurationAccess}
use virtio_drivers_and_devic.Transport.Pci.Bars.{
  Checked, valid, invalid_bar_type, BarInfo, takes_two_entries, bar_info, bars_loop, bars,
  store_bar,
}
use virtio_drivers_and_devic.Transport.Pci.Bars.Sizes.{bar_info-ok, HasRoom}

-- the entries in front of a result
abbrev pub behind :
    List (Option BarInfo) → Checked (List (Option BarInfo)) → Checked (List (Option BarInfo))
behind before invalid_bar_type = invalid_bar_type
behind before (valid entries) = valid (before ++ entries)

behind-behind :
    (xs ys : List (Option BarInfo)) (r : Checked (List (Option BarInfo)))
    → behind (xs ++ ys) r ≡ behind xs (behind ys r)
behind-behind xs ys invalid_bar_type = refl
behind-behind xs ys (valid zs) = ap valid (append_assoc xs ys zs)

set-append :
    (xs ys : List (Option BarInfo)) (y z : Option BarInfo)
    → set (xs ++ (y ∷ ys)) (length xs) z ≡ xs ++ (z ∷ ys)
set-append [] ys y z = refl
set-append (x ∷ xs) ys y z = ap (λ zs. x ∷ zs) (set-append xs ys y z)

module _ (C : ConfigurationAccess) (f : DeviceFunction) where
  -- The entries from a register on, and the states before and after they are read: one for each
  -- region, and none for the second register of a region that takes two; or a type that is invalid.
  pub data Scan : ℕ → C.State → Checked (List (Option BarInfo)) → C.State → Type 0 where
    all_scanned : {i : ℕ} {s : C.State} → i ≡ 6 → Scan i s (valid []) s
    refused :
        {i : ℕ} {s t : C.State}
        → i < 6
        → bar_info C f i s ≡ ok invalid_bar_type t
        → Scan i s invalid_bar_type t
    one_entry :
        {i : ℕ} {s t u : C.State} {info : BarInfo} {r : Checked (List (Option BarInfo))}
        → i < 6
        → bar_info C f i s ≡ ok (valid info) t
        → takes_two_entries info ≡ false
        → Scan (i + 1) t r u
        → Scan i s (behind (some info ∷ []) r) u
    two_entries :
        {i : ℕ} {s t u : C.State} {info : BarInfo} {r : Checked (List (Option BarInfo))}
        → i < 5
        → bar_info C f i s ≡ ok (valid info) t
        → takes_two_entries info ≡ true
        → Scan (i + 2) t r u
        → Scan i s (behind (some info ∷ none ∷ []) r) u

  -- a run that ends, with the entries that are there already and those of a scan
  abbrev Scans :
      ℕ → List (Option BarInfo) → C.State → Run C.State (Checked (List (Option BarInfo))) → Type 0
  Scans i before s result =
      (r : Checked (List (Option BarInfo))) × (t : C.State) × (result ≡ ok (behind before r) t)
      × Scan i s r t

  module _ (fuel : ℕ)
      (later : (i k : ℕ) (before : List (Option BarInfo)) (s : C.State)
        → length before ≡ i
        → i + k ≡ 6
        → 6 < fuel + i
        → Scans i before s (bars_loop C f fuel i (before ++ replicate k none) s)) where
    inside :
        (i k : ℕ) (before : List (Option BarInfo))
        → length before ≡ i
        → ltb i (length (before ++ replicate (suc k) none)) ≡ true
    inside i k before l = ground (
      arith,
      l,
      length-append before (replicate (suc k) none),
      length-replicate {A = Option BarInfo} (suc k) none,
    )

    two-Scans :
        (i k : ℕ) (before : List (Option BarInfo)) (s t : C.State) (info : BarInfo)
        → length before ≡ i
        → i + suc k ≡ 6
        → 6 < suc fuel + i
        → i < 5
        → takes_two_entries info ≡ true
        → bar_info C f i s ≡ ok (valid info) t
        → Scans i before s
            (bars_loop C f fuel (i + 2) (set (before ++ replicate (suc k) none) i (some info)) t)
    two-Scans i zero before s t info l n h room two e = absurd (omega arith)
    two-Scans i (suc k) before s t info l n h room two e =
        let entries = some info ∷ none ∷ [] in
        let (r, u, is, scan) =
          later (i + 2) k (before ++ entries) t (omega (arith, length-append before entries))
            (omega arith) (omega arith) in
        (
          behind entries r,
          u,
          ap (λ cs. bars_loop C f fuel (i + 2) cs t)
                (ap (λ j. set (before ++ (none ∷ none ∷ replicate k none)) j (some info)) (sym l)
                  ∙ set-append before (none ∷ replicate k none) none (some info)
                  ∙ sym (append_assoc before entries (replicate k none)))
              ∙ is
              ∙ ap (λ z. ok z u) (behind-behind before entries r),
          two_entries room e two scan,
        )

    one-Scans :
        (i k : ℕ) (before : List (Option BarInfo)) (s t : C.State) (info : BarInfo)
        → length before ≡ i
        → i + suc k ≡ 6
        → 6 < suc fuel + i
        → takes_two_entries info ≡ false
        → bar_info C f i s ≡ ok (valid info) t
        → Scans i before s
            (bars_loop C f fuel (i + 1) (set (before ++ replicate (suc k) none) i (some info)) t)
    one-Scans i k before s t info l n h one e =
        let entries = some info ∷ [] in
        let (r, u, is, scan) =
          later (i + 1) k (before ++ entries) t (omega (arith, length-append before entries))
            (omega arith) (omega arith) in
        (
          behind entries r,
          u,
          ap (λ cs. bars_loop C f fuel (i + 1) cs t)
                (ap (λ j. set (before ++ (none ∷ replicate k none)) j (some info)) (sym l)
                  ∙ set-append before (replicate k none) none (some info)
                  ∙ sym (append_assoc before entries (replicate k none)))
              ∙ is
              ∙ ap (λ z. ok z u) (behind-behind before entries r),
          one_entry (omega arith) e one scan,
        )

    stored-Scans :
        (i k : ℕ) (before : List (Option BarInfo)) (s t : C.State) (info : Checked BarInfo)
        → length before ≡ i
        → i + suc k ≡ 6
        → 6 < suc fuel + i
        → HasRoom C f i info
        → bar_info C f i s ≡ ok info t
        → Scans i before s
            (store_bar C f i (before ++ replicate (suc k) none) (bars_loop C f fuel) info t)
    stored-Scans i k before s t invalid_bar_type l n h room e =
        (invalid_bar_type, t, refl, refused (omega arith) e)
    stored-Scans i k before s t (valid info) l n h room e =
        elim (Bool-cases (takes_two_entries info)) [
          | inl two ↦
              rw (inside i k before l, two) (two-Scans i k before s t info l n h (room two) two e)
          | inr one ↦ rw (inside i k before l, one) (one-Scans i k before s t info l n h one e)
        ]

  bars_loop-Scans :
      (fuel i k : ℕ) (before : List (Option BarInfo)) (s : C.State)
      → length before ≡ i
      → i + k ≡ 6
      → 6 < fuel + i
      → Scans i before s (bars_loop C f fuel i (before ++ replicate k none) s)
  unfolding bars_loop
  bars_loop-Scans zero i k before s l n h = absurd (omega arith)
  bars_loop-Scans (suc fuel) i zero before s l n h =
      (valid [], s, rw (done l n) refl, all_scanned (omega arith))
    where
      done : length before ≡ i → i + 0 ≡ 6 → ltb i 6 ≡ false
      done p q = ground arith
  bars_loop-Scans (suc fuel) i (suc k) before s l n h =
      let (info, is, size, room) = bar_info-ok C f i s (omega arith) in
      rw (more n, is) (stored-Scans fuel (bars_loop-Scans fuel) i k before s _ info l n h room is)
    where
      more : i + suc k ≡ 6 → ltb i 6 ≡ true
      more q = ground arith

  -- Whatever the registers hold, `bars` ends and does not panic: one after the other it reads the
  -- registers with `bar_info`, and stops at a type that is invalid, or returns an entry for each of
  -- the six, with what `bar_info` says, or nothing for the second register of a region that takes
  -- two.
  pub bars-Scan :
      (s : C.State)
      → (r : Checked (List (Option BarInfo))) × (t : C.State) × (bars C f s ≡ ok r t) × Scan 0 s r t
  unfolding bars
  bars-Scan s =
      let (r, t, is, scan) = bars_loop-Scans 7 0 6 [] s refl (omega arith) (omega arith) in
      (r, t, is ∙ nothing r t, scan)
    where
      nothing : (r : Checked (List (Option BarInfo))) (t : C.State) → ok (behind [] r) t ≡ ok r t
      nothing invalid_bar_type t = refl
      nothing (valid xs) t = refl
