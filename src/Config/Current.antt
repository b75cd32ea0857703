-- ===== src/Config/Current.antt =====
-- The two copies of a file's data. A reader keeps a pointer to the current one.
use modern_flux.Base.{
  ℕ, ◌+◌, ◌-◌, ◌%◌, ◌≤◌, ◌<◌, ◌≡◌, ◌≢◌, ◌⊎◌, inl, inr, refl, ap, ◌∙◌, Option, none, some, arith,
  ltb, length, length-set, get_or, get_or-set_self, get_or-set_ne, Bool-cases, Option-cases,
}
use modern_flux.Base.Int.{pos}
use modern_flux.Base.Bytes.{Bytes}
use modern_flux.Base.Dict.{Dict, lookup, insert, lookup-insert_self}
use modern_flux.Config.{
  Format, Item, Arr, Reading, load_file, load, load_again, refresh, point_at, write_item, group_num,
  index_diff_time,
}

abbrev pub IsPaired : {A : Type 0} → Arr A → Type 0
IsPaired arr = (length arr.data_arr ≡ group_num) × (arr.cur < group_num)

-- What a load makes of an entry: nothing, or the other copy gets the file's data, with its time and the
-- time of the load, and becomes current; this just where the file is accepted and newer, and at
-- least 180 seconds after the load of the copy before.
pub record IsRefresh {A : Type 0} (fresh : Item A) (file_time time flag : ℕ) (read : Option A)
    (old new : Arr A) : Type 0 where
  paired : IsPaired new
  kept : get_or new.data_arr old.cur fresh ≡ get_or old.data_arr old.cur fresh
  outcome :
      ((flag ≢ 2) × (new ≡ old))
      ⊎ ((flag ≡ 2)
          × (new.cur ≡ 1 - old.cur)
          × ((get_or old.data_arr old.cur fresh).file_time < file_time)
          × ((get_or old.data_arr old.cur fresh).load_time + index_diff_time ≤ time)
          × (let item = get_or new.data_arr new.cur fresh in
              (read ≡ some item.cfg_data)
              × (item.file_time ≡ file_time)
              × (item.load_time ≡ time)
              × (item.update_time ≡ time)))
  refused : read ≡ none → flag ≢ 2
  due :
      (get_or old.data_arr old.cur fresh).file_time < file_time
      → (get_or old.data_arr old.cur fresh).load_time + index_diff_time ≤ time
      → read ≢ none
      → flag ≡ 2

module _ {A : Type 0} (fresh : Item A) where
  unchanged :
      (file_time time flag : ℕ) (read : Option A) (arr : Arr A)
      → IsPaired arr
      → flag ≢ 2
      → ((get_or arr.data_arr arr.cur fresh).file_time < file_time
          → (get_or arr.data_arr arr.cur fresh).load_time + index_diff_time ≤ time
          → read ≢ none
          → flag ≡ 2)
      → IsRefresh fresh file_time time flag read arr arr
  unchanged file_time time flag read arr paired other due = record {
    due = due;
    refused = λ e. other;
    paired = paired;
    kept = refl;
    outcome = inl (other, refl);
  }

  rewritten :
      (file_time time : ℕ) (new : A) (arr : Arr A)
      → IsPaired arr
      → (get_or arr.data_arr arr.cur fresh).file_time < file_time
      → (get_or arr.data_arr arr.cur fresh).load_time + index_diff_time ≤ time
      → IsRefresh fresh file_time time 2
          (some new)
          arr
          (write_item ((arr.cur + 1) % group_num) new file_time time arr)
  rewritten file_time time new arr (two, within) newer late =
      let other : (arr.cur + 1) % group_num ≡ 1 - arr.cur = omega arith in
      let apart : (arr.cur + 1) % group_num ≢ arr.cur = λ e. absurd (omega (arith, e)) in
      let next = write_item ((arr.cur + 1) % group_num) new file_time time arr in
      let stored =
        get_or-set_self arr.data_arr next.cur
          (record { cfg_data = new; file_time = file_time; load_time = time; update_time = time })
          fresh (omega (arith, two)) in
      record {
        paired = (length-set arr.data_arr next.cur _ ∙ two, omega arith);
        kept = get_or-set_ne arr.data_arr next.cur arr.cur _ fresh apart;
        outcome = inr (refl, other, newer, late, rw stored (refl, refl, refl, refl));
        refused = λ e. absurd (ground (arith, e));
        due = λ a b c. refl;
      }

  load_again-IsRefresh :
      (file_time time : ℕ) (cfg_data : Option A) (arr : Arr A)
      → IsPaired arr
      → IsRefresh fresh file_time time
          (load_again fresh file_time time cfg_data arr).0
          cfg_data
          arr
          (load_again fresh file_time time cfg_data arr).1
  unfolding load_again
  load_again-IsRefresh file_time time cfg_data arr paired =
      let item = get_or arr.data_arr arr.cur fresh in
      elim (Bool-cases (ltb item.file_time file_time)) [
        | inl newer ↦ elim (Bool-cases (ltb (time - item.load_time) index_diff_time)) [
          | inl soon ↦
              rw (newer, soon)
                (unchanged file_time time 3 cfg_data arr paired (λ e. absurd (omega (arith, e)))
                  (λ a b c. absurd (ground (arith, soon, b))))
          | inr late ↦ elim (Option-cases cfg_data) [
            | inl e ↦
                rw (newer, late, e)
                  (unchanged file_time time 5 none arr paired (λ e. absurd (omega (arith, e)))
                    (λ a b c. absurd (c refl)))
            | inr (new, e) ↦
                rw (newer, late, e)
                  (rewritten file_time time new arr paired (ground arith) (ground arith))
          ]
        ]
        | inr same ↦ rw same (
            unchanged file_time time 4 cfg_data arr paired (λ e. absurd (omega (arith, e)))
              (λ a b c. absurd (ground (arith, same, a))))
      ]

  load_known :
      (format : Format A) (key : Bytes) (r : Reading) (gmap : Dict (Arr A)) (arr : Arr A) (t : ℕ)
      → lookup key gmap ≡ some arr
      → r.file_time ≡ some t
      → let next = load_again fresh t r.time (load_file format r.content) arr in
        load format fresh key r gmap ≡ record {
          ret = pos 0;
          flag = next.0;
          found = some (next.1.cur, (get_or next.1.data_arr next.1.cur fresh).cfg_data);
          gmap = insert key next.1 gmap;
        }
  unfolding load refresh point_at
  load_known format key r gmap arr t known found =
      let next = load_again fresh t r.time (load_file format r.content) arr in
      let there = lookup-insert_self key next.1 gmap in
      let loaded = load_file format r.content in
      let changed : refresh fresh key t r.time loaded gmap ≡ (next.0, insert key next.1 gmap) =
        rw (refresh, known) refl in
      rw (found, load) (ap (point_at fresh key) changed ∙ rw (there, point_at) refl)

  -- A load of a file that is known, with two copies in its entry, and whose time can be read, succeeds
  -- and points at the current copy. The copy that was current stays as it was, so that an older
  -- pointer into it remains good. Where the file is accepted, newer than the data, and these were
  -- loaded at least 180 seconds ago, the other copy becomes current, with the file's data and time
  -- and the time of the load; and else nothing changes.
  pub load-IsRefresh :
      (format : Format A) (key : Bytes) (r : Reading) (gmap : Dict (Arr A)) (arr : Arr A) (t : ℕ)
      → lookup key gmap ≡ some arr
      → IsPaired arr
      → r.file_time ≡ some t
      → let out = load format fresh key r gmap in
        (new : Arr A) × (lookup key out.gmap ≡ some new)
        × IsRefresh fresh t r.time out.flag (load_file format r.content) arr new
        × (out.ret ≡ pos 0)
        × (out.found ≡ some (new.cur, (get_or new.data_arr new.cur fresh).cfg_data))
  load-IsRefresh format key r gmap arr t known paired found =
      let next = load_again fresh t r.time (load_file format r.content) arr in
      let there = lookup-insert_self key next.1 gmap in
      let step = load_again-IsRefresh t r.time (load_file format r.content) arr paired in
      rw (load_known format key r gmap arr t known found) (next.1, there, step, refl, refl)
