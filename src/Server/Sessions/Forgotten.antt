-- ===== src/Server/Sessions/Forgotten.antt =====
-- What `Revoke` leaves in the persistent store.
use safe_disk.Base.{
  Bool, true, false, ◌||◌, ◌&&◌, ◌≡◌, refl, ap, ◌∙◌, Option, none, some, List, [], ◌∷◌, Bool-cases,
  if◌then◌else◌, inl, inr,
}
use safe_disk.Base.Strings.{Str, same, same_eq}
use safe_disk.GoMap.{is_some}
use safe_disk.GoMap.Laws.{lookup-insert, lookup-delete}
use safe_disk.Config.Memory.{str_eq}
use safe_disk.Server.Types.{
  PersistentSession, ActiveSession, Manager, is_lasting, SaveOutcome, saved,
}
use safe_disk.Server.Records.{Store, or_empty, records_of, drop_record, change_store}
use safe_disk.Server.Listeners.{stop_if_idle}
use safe_disk.Server.Sessions.{find_session, forget_record, drop_session, revoke_found, revoke}

abbrev pub has_record : Str → List PersistentSession → Bool
has_record id [] = false
has_record id (p ∷ ps) = same p.id id || has_record id ps

abbrev pub stored : Str → Option Store → List PersistentSession
stored root_key none = []
stored root_key (some s) = records_of root_key s

has_record-drop_record :
    (id : Str) (ps : List PersistentSession) → has_record id (drop_record id ps) ≡ false
has_record-drop_record id [] = refl
has_record-drop_record id (p ∷ ps) = elim (Bool-cases (same p.id id)) [
  | inl e ↦ rw e (has_record-drop_record id ps)
  | inr e ↦ rw (e, e) (has_record-drop_record id ps)
]

-- Records of other ids stay.
has_record-drop_other :
    (id j : Str) (ps : List PersistentSession)
    → same id j ≡ false
    → has_record j (drop_record id ps) ≡ has_record j ps
has_record-drop_other id j [] h = refl
has_record-drop_other id j (p ∷ ps) h = elim (Bool-cases (same p.id id)) [
  | inl e ↦
      let apart : same p.id j ≡ false = ap (λ k. same k j) (same_eq p.id id e) ∙ h in
      rw (e, apart) (has_record-drop_other id j ps h)
  | inr e ↦ rw e (ap (λ b. same p.id j || b) (has_record-drop_other id j ps h))
]

module _ (id : Str) (a : ActiveSession) (m : Manager) (s : Store) where
  forget_record-lasting :
      (loads : Bool) (outcome : SaveOutcome)
      → is_lasting a.session.session_lifetime ≡ true
      → m.store ≡ some s
      → forget_record loads outcome id a (drop_session id m)
        ≡ (change_store loads outcome a.session.root_key
            (drop_record id)
            (some s)
            (drop_session id m)).1
  forget_record-lasting loads outcome lasting has =
      ap
        (λ o.
          if is_lasting a.session.session_lifetime && is_some o
          then (change_store loads outcome a.session.root_key (drop_record id) o
              (drop_session id m)).1
          else drop_session id m)
        has
      ∙ rw lasting refl

  revoke-found :
      (loads : Bool) (outcome : SaveOutcome)
      → find_session id m ≡ some a
      → is_lasting a.session.session_lifetime ≡ true
      → m.store ≡ some s
      → (revoke loads outcome id m).0
        ≡ stop_if_idle
            (change_store loads outcome a.session.root_key
              (drop_record id)
              (some s)
              (drop_session id m)).1
  unfolding revoke
  revoke-found loads outcome found lasting has =
      ap (λ o. (revoke_found loads outcome id o m).0) found
      ∙ ap stop_if_idle (forget_record-lasting loads outcome lasting has)

  -- Revoke of a persistent session leaves no record of its id among those of its root, and a
  -- record of another id exactly if there was one, if the store loads and saves; if the store
  -- cannot be loaded the session is gone from the manager all the same, and every record stays.
  pub revoke-stored :
      (j : Str) (outcome : SaveOutcome)
      → same id j ≡ false
      → find_session id m ≡ some a
      → is_lasting a.session.session_lifetime ≡ true
      → m.store ≡ some s
      → let root_key = a.session.root_key in
        let records = stored root_key (revoke true saved id m).0.store in
        (has_record id records ≡ false)
        × (has_record j records ≡ has_record j (records_of root_key s))
        × ((revoke false outcome id m).0.store ≡ some s)
        × (find_session id (revoke false outcome id m).0 ≡ none)
  revoke-stored j outcome apart found lasting has =
      let left : stored a.session.root_key (revoke true saved id m).0.store
          ≡ drop_record id (records_of a.session.root_key s) =
        ap (λ n. stored a.session.root_key n.store) (revoke-found true saved found lasting has)
        ∙ ap or_empty (lookup-insert str_eq a.session.root_key _ s) in
      (
        ap (has_record id) left ∙ has_record-drop_record id (records_of a.session.root_key s),
        ap (has_record j) left ∙ has_record-drop_other id j (records_of a.session.root_key s) apart,
        ap (λ n. n.store) (revoke-found false outcome found lasting has),
        ap (find_session id) (revoke-found false outcome found lasting has)
            ∙ lookup-delete str_eq id m.sessions,
      )
