-- ===== src/Copy/Safe.antt =====
-- However a copy over a file ends, the old file or the new one is still there.
use safe_disk.Base.{
  Bool, true, false, ◌≡◌, ◌≢◌, refl, sym, subst, Option, none, some, List, [], ◌∷◌, ◌⊎◌, inl, inr,
}
use safe_disk.Base.Strings.{Str}
use safe_disk.Copy.{
  Outcome, works, fails, dies, Disk, CopyResult, copied, failed, Rest, finish, step, drop_temp,
  temp_to_dst, dst_to_backup, backup_to_dst, drop_backup, discard_temp, commit_over, commit,
  copy_contents, write_temp, replace, begin, copy_file_entry,
}

module _ (old new : Str) where
  -- The old file stands at its place or beside it.
  abbrev pub HasOld : Disk → Type 0
  HasOld d = (d.dst ≡ some old) ⊎ ((d.dst ≡ none) × (d.backup ≡ some old))

  -- The copy is made, or it is not reported and the old file is there.
  abbrev pub IsKept : Option CopyResult × Disk → Type 0
  IsKept p = (p.1.dst ≡ some new) ⊎ ((p.0 ≢ some copied) × HasOld p.1)

  abbrev IsSafe : (Disk → Type 0) → Rest → Type 0
  IsSafe Before rest = (os : List Outcome) (d : Disk) → Before d → IsKept (rest os d)

  abbrev Old : Disk → Type 0
  Old d = d.dst ≡ some old

  abbrev OldAndNew : Disk → Type 0
  OldAndNew d = (d.dst ≡ some old) × (d.temp ≡ some new)

  abbrev Aside : Disk → Type 0
  Aside d = (d.dst ≡ none) × (d.backup ≡ some old) × (d.temp ≡ some new)

  abbrev New : Disk → Type 0
  New d = d.dst ≡ some new

  step-IsSafe :
      (Before After : Disk → Type 0) (effect : Disk → Disk) (good bad : Rest)
      → ((d : Disk) → Before d → IsKept (none, d))
      → ((d : Disk) → Before d → After (effect d))
      → IsSafe After good
      → IsSafe Before bad
      → IsSafe Before (step effect good bad)
  step-IsSafe Before After effect good bad dead move g b [] d h = dead d h
  step-IsSafe Before After effect good bad dead move g b (works ∷ os) d h =
      g os (effect d) (move d h)
  step-IsSafe Before After effect good bad dead move g b (fails left ∷ os) d h = b os d h
  step-IsSafe Before After effect good bad dead move g b (dies left ∷ os) d h = dead d h

  died : (d : Disk) → HasOld d → IsKept (none, d)
  died d h = inr (λ e. cc, h)

  gave_up : IsSafe HasOld (finish failed)
  gave_up os d h = inr (λ e. cc, h)

  discard-IsSafe : IsSafe HasOld discard_temp
  discard-IsSafe =
      step-IsSafe HasOld HasOld drop_temp (finish failed) (finish failed) died (λ d h. h) gave_up
        gave_up

  finished : (r : CopyResult) → IsSafe New (finish r)
  finished r os d h = inl h

  commit_over-IsSafe : IsSafe OldAndNew commit_over
  commit_over-IsSafe =
      let back : IsSafe Aside (step backup_to_dst discard_temp discard_temp) =
        step-IsSafe Aside HasOld backup_to_dst discard_temp discard_temp
          (λ d h. died d (inr (h.0, h.1))) (λ d h. inl h.1) discard-IsSafe
          (λ os d h. discard-IsSafe os d (inr (h.0, h.1))) in
      let clean : IsSafe New (step drop_backup (finish copied) (finish failed)) =
        step-IsSafe New New drop_backup (finish copied) (finish failed) (λ d h. inl h) (λ d h. h)
          (finished copied) (finished failed) in
      let second =
        step-IsSafe Aside New temp_to_dst (step drop_backup (finish copied) (finish failed))
          (step backup_to_dst discard_temp discard_temp) (λ d h. died d (inr (h.0, h.1)))
          (λ d h. h.2) clean back in
      let first =
        step-IsSafe OldAndNew Aside dst_to_backup
          (step temp_to_dst (step drop_backup (finish copied) (finish failed))
            (step backup_to_dst discard_temp discard_temp))
          discard_temp (λ d h. died d (inl h.0)) (λ d h. (refl, h.0, h.1)) second
          (λ os d h. discard-IsSafe os d (inl h.0)) in
      step-IsSafe OldAndNew OldAndNew (λ d. d) _ discard_temp (λ d h. died d (inl h.0)) (λ d h. h)
        first (λ os d h. discard-IsSafe os d (inl h.0))

  copy_contents-IsSafe : IsSafe Old (copy_contents new (commit true))
  copy_contents-IsSafe [] d h = died d (inl h)
  copy_contents-IsSafe (works ∷ os) d h =
      step-IsSafe OldAndNew OldAndNew (λ d. d) commit_over discard_temp (λ d h. died d (inl h.0))
        (λ d h. h) commit_over-IsSafe (λ os d h. discard-IsSafe os d (inl h.0)) os
        (record d { temp = some new }) (h, refl)
  copy_contents-IsSafe (fails left ∷ os) d h =
      step-IsSafe HasOld HasOld (λ d. d) discard_temp discard_temp died (λ d h. h) discard-IsSafe
        discard-IsSafe os (record d { temp = some left }) (inl h)
  copy_contents-IsSafe (dies left ∷ os) d h = died (record d { temp = some left }) (inl h)

  -- An operation before the copy.
  early :
      (effect : Disk → Disk) (good : Rest)
      → ((d : Disk) → Old d → Old (effect d))
      → IsSafe Old good
      → IsSafe Old (step effect good (finish failed))
  early effect good move g =
      step-IsSafe Old Old effect good (finish failed) (λ d h. died d (inl h)) move g
        (λ os d h. gave_up os d (inl h))

  write_temp-IsSafe : IsSafe Old (write_temp true new)
  write_temp-IsSafe =
      let create =
        early (λ d. record d { temp = some [] }) (copy_contents new (commit true)) (λ d h. h)
          copy_contents-IsSafe in
      let name = early (λ d. d) _ (λ d h. h) create in
      let parent = early (λ d. d) _ (λ d h. h) name in early (λ d. d) _ (λ d h. h) parent

  replace-IsSafe : (is_dir overwrite : Bool) → IsSafe Old (replace is_dir overwrite new)
  replace-IsSafe true overwrite os d h = inr (λ e. cc, inl h)
  replace-IsSafe false true os d h = write_temp-IsSafe os d h
  replace-IsSafe false false os d h = inr (λ e. cc, inl h)

  -- However the copy of a file over another ends, an error or the death of the process in any
  -- operation included: the destination holds the new contents, or the copy is not reported as
  -- made and the old contents are at the destination or in the backup beside it.
  pub copy_file_entry-IsKept :
      (is_dir overwrite : Bool) (os : List Outcome) (d : Disk)
      → d.dst ≡ some old
      → IsKept (copy_file_entry is_dir overwrite new os d)
  copy_file_entry-IsKept is_dir overwrite os d h =
      subst (λ o. IsKept (begin o is_dir overwrite new os d)) (sym h)
        (early (λ d. d) (replace is_dir overwrite new) (λ d h. h) (replace-IsSafe is_dir overwrite)
          os d h)
