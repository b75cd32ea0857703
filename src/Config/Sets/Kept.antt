-- ===== src/Config/Sets/Kept.antt =====
-- What a reload leaves as it was.
use modern_flux.Base.{
  ℕ, ◌-◌, ◌≡◌, refl, ap, ◌∙◌, some, List, [], ◌∷◌, ◌++◌, ◌==◌, ltb, if◌then◌else◌, length,
  Bool-cases, Option-cases, inl, inr,
}
use modern_flux.Base.Bytes.{Bytes, eq_bytes, eq_bytes→eq}
use modern_flux.Base.Dict.{
  Dict, lookup, lookup_or, insert, emplace, lookup-insert, lookup-emplace, lookup_or-some,
  lookup_or-emplace,
}
use modern_flux.Server.{SetCfgFirst, Server}
use modern_flux.Config.{Loaded, load}
use modern_flux.Config.Sets.{
  SetItem, SetFileInfo, Files, Config, init_set_cfg, configure, apply_item, apply_items, if_new,
  load_set, load_sets, follow, load_set_info_wrap, set_cfg_filename, set_cfg_path,
}

-- The same running numbers: those that no file gives.
pub record SameBooks (old new : SetCfgFirst) : Type 0 where
  setsum : new.setsum ≡ old.setsum
  timesum : new.timesum ≡ old.timesum
  lock : new.lock ≡ old.lock
  updatetime : new.updatetime ≡ old.updatetime
  workernum : new.workernum ≡ old.workernum

-- The data of keys and processes stay, and no set is lost or loses its running numbers.
pub record KeepsBooks (s t : Server) : Type 0 where
  pub quotas : t.s_map_quota ≡ s.s_map_quota
  pub procs : t.s_map_proc_quota ≡ s.s_map_proc_quota
  pub setproc : t.s_setproc ≡ s.s_setproc
  pub sets :
      (k : Bytes) (cfg : SetCfgFirst)
      → lookup k s.map_set_cfg_first ≡ some cfg
      → (new : SetCfgFirst) × (lookup k t.map_set_cfg_first ≡ some new) × SameBooks cfg new

same_books : (cfg : SetCfgFirst) → SameBooks cfg cfg
same_books cfg = record {
  setsum = refl;
  timesum = refl;
  lock = refl;
  updatetime = refl;
  workernum = refl;
}

keeps_refl : (s : Server) → KeepsBooks s s
keeps_refl s = record {
  quotas = refl;
  procs = refl;
  setproc = refl;
  sets = λ k cfg e. (cfg, e, same_books cfg);
}

keeps_trans : (s t u : Server) → KeepsBooks s t → KeepsBooks t u → KeepsBooks s u
keeps_trans s t u a b = record {
  quotas = b.quotas ∙ a.quotas;
  procs = b.procs ∙ a.procs;
  setproc = b.setproc ∙ a.setproc;
  sets = λ k cfg e.
      let (mid, at, first) = a.sets k cfg e in
      let (new, there, second) = b.sets k mid at in
      (
        new,
        there,
        record {
          setsum = second.setsum ∙ first.setsum;
          timesum = second.timesum ∙ first.timesum;
          lock = second.lock ∙ first.lock;
          updatetime = second.updatetime ∙ first.updatetime;
          workernum = second.workernum ∙ first.workernum;
        },
      );
}

configure-SameBooks : (item : SetItem) (cfg : SetCfgFirst) → SameBooks cfg (configure item cfg)
unfolding configure
configure-SameBooks item cfg = record {
  setsum = refl;
  timesum = refl;
  lock = refl;
  updatetime = refl;
  workernum = refl;
}

-- The set of an item, and the other sets.
apply_item-sets :
    (item : SetItem) (m : Dict SetCfgFirst) (k : Bytes) (cfg : SetCfgFirst)
    → lookup k m ≡ some cfg
    → let sets = emplace item.setkey init_set_cfg m in
      (new : SetCfgFirst) × (lookup k
          (insert item.setkey (configure item (lookup_or item.setkey init_set_cfg sets)) sets)
        ≡ some new)
      × SameBooks cfg new
apply_item-sets item m k cfg e =
    let key = item.setkey in
    let sets = emplace key init_set_cfg m in
    let value = configure item (lookup_or key init_set_cfg sets) in
    let there = lookup-insert key k value sets in
    let placed = lookup-emplace key k init_set_cfg m in
    elim (Bool-cases (eq_bytes key k)) [
      | inl same ↦
          let here : lookup key m ≡ some cfg =
            ap (λ (j : Bytes). lookup j m) (eq_bytes→eq key k same) ∙ e in
          let old : lookup_or key init_set_cfg sets ≡ cfg =
            lookup_or-emplace key key init_set_cfg m ∙ lookup_or-some key init_set_cfg cfg m here in
          (
            configure item cfg,
            there ∙ rw same (ap some (ap (configure item) old)),
            configure-SameBooks item cfg,
          )
      | inr other ↦ (cfg, there ∙ rw (other, placed, other) e, same_books cfg)
    ]

apply_item-KeepsBooks : (item : SetItem) (s : Server) → KeepsBooks s (apply_item item s)
unfolding apply_item
apply_item-KeepsBooks item s = elim (Bool-cases (ltb 0 (length item.setkey))) [
  | inl given ↦ rw given (record {
    quotas = refl;
    procs = refl;
    setproc = refl;
    sets = apply_item-sets item s.map_set_cfg_first;
  })
  | inr empty ↦ rw empty (keeps_refl s)
]

apply_items-KeepsBooks : (items : List SetItem) (s : Server) → KeepsBooks s (apply_items items s)
unfolding apply_items
apply_items-KeepsBooks [] s = keeps_refl s
apply_items-KeepsBooks (item ∷ items) s =
    keeps_trans s (apply_item item s) (apply_items items (apply_item item s))
      (apply_item-KeepsBooks item s) (apply_items-KeepsBooks items (apply_item item s))

module _ (files : Files) where
  load_set-KeepsBooks :
      (path name : Bytes) (c : Config) → KeepsBooks c.server (load_set files path name c).server
  unfolding load_set
  load_set-KeepsBooks path name c =
      let r =
        load files.set_format files.fresh_set name (files.read_file (path ++ name)) c.g_map_set in
      elim (Bool-cases (ltb 0 (length name))) [
        | inl given ↦ elim (Option-cases (if_new r)) [
          | inl old ↦ rw (given, old) (keeps_refl c.server)
          | inr (info, new) ↦ rw (given, new) (apply_items-KeepsBooks info.itemlist c.server)
        ]
        | inr empty ↦ rw empty (keeps_refl c.server)
      ]

  load_sets-KeepsBooks :
      (path : Bytes) (names : List Bytes) (c : Config)
      → KeepsBooks c.server (load_sets files path names c).server
  unfolding load_sets
  load_sets-KeepsBooks path [] c = keeps_refl c.server
  load_sets-KeepsBooks path (name ∷ names) c =
      let next = load_set files path name c in
      keeps_trans c.server next.server (load_sets files path names next).server
        (load_set-KeepsBooks path name c) (load_sets-KeepsBooks path names next)

  follow-KeepsBooks :
      (r : Loaded SetFileInfo) (c : Config) → KeepsBooks c.server (follow files r c).server
  unfolding follow
  follow-KeepsBooks r c = elim (Option-cases r.found) [
    | inl e ↦ rw (e, follow) (keeps_refl c.server)
    | inr ((index, info), e) ↦ elim (Bool-cases (r.flag == 4)) [
      | inl old ↦ rw (e, follow, old) (keeps_refl c.server)
      | inr new ↦
          rw (e, follow, new)
            (load_sets-KeepsBooks (if ltb 0 (length info.fpath) then info.fpath else set_cfg_path)
              info.fname c)
    ]
  ]

  -- Whatever the files hold, LoadSETInfoWrap leaves the data of the keys and of the processes, removes no
  -- set, and changes of a known set only what its file gives: its sum, its slots, its lock, its time
  -- and its number of workers stay.
  pub load_set_info_wrap-KeepsBooks :
      (now : ℕ) (c : Config) → KeepsBooks c.server (load_set_info_wrap files now c).server
  unfolding load_set_info_wrap
  load_set_info_wrap-KeepsBooks now c =
      let reading = files.read_file (set_cfg_path ++ set_cfg_filename) in
      let r = load files.file_format files.fresh_file set_cfg_filename reading c.g_map_set_file in
      let begun : Config = record c { last = now; g_map_set_file = r.gmap } in
      elim (Bool-cases (ltb (now - c.last) 60)) [
        | inl early ↦ rw early (keeps_refl c.server)
        | inr due ↦ rw due (follow-KeepsBooks r begun)
      ]
