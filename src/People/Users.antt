-- ===== src/People/Users.antt =====
-- app/repo/people.py: the identity that an upsert answers with.
use mathlib.Core.Path.{subst}
use tg_my_person.Prelude.{
  ℕ, suc, ◌≡◌, ◌≢◌, refl, ◌∙◌, sym, ap, Bool, true, Option, none, some, List, [], ◌∷◌, map, ==ℤ_iff,
  ℤ, filter, find, ltb, arith, Bool-cases, Option-cases, inl, inr, count-some, find-map_keeps,
  find-mem,
}
use tg_my_person.Models.{Platform, telegram}
use tg_my_person.People.Rows.{
  Text, Identity, Tables, UserRow, has_id, is_user, same_platform, display_name, move,
}
use tg_my_person.People.Upsert.{
  Values, is_candidate, first_by_person, merge_into, merge_with, merge_row, auto_merge_identity,
  identity_row_after, new_identity, with_tables, finish, or_insert, followed, update_identity,
  insert_identity, fill_phone, values_of, upsert_identity,
}
use tg_my_person.People.Linked.{IsLinked, update_identity-IsLinked}
use tg_my_person.People.Moves.{found_itself}
use tg_my_person.People.Pins.{absorb_person-identities, identity_row_after-id}

module _ (platform : Platform) (external : ℤ) where
  -- The row of the id is the user's.
  abbrev pub IsOf : ℕ → Tables → Type 0
  IsOf id db =
      (i : Identity) × (find (has_id id) db.identities ≡ some i)
      × (is_user platform external i ≡ true)

  -- There is an id, and its row is the user's.
  abbrev Answers : Option ℕ × Tables → Type 0
  Answers r = (id : ℕ) × (r.0 ≡ some id) × IsOf id r.1

  identity_row_after-user :
      (v : Values) (i : Identity)
      → is_user platform external (identity_row_after platform external v i)
        ≡ is_user platform external i
  identity_row_after-user v i = ground arith

  update_identity-Answers :
      (v : Values) (db : Tables) (i : Identity)
      → IsLinked db
      → find (is_user platform external) db.identities ≡ some i
      → Answers (update_identity platform external v db)
  unfolding update_identity
  update_identity-Answers v db i l found =
      let mine =
        found_itself db.identities i l.keys.unique_id
          (find-mem (is_user platform external) db.identities i found) in
      let (is_his, _) = count-some (is_user platform external) db.identities i found in
      (
        i.id,
        rw found refl,
        (
          identity_row_after platform external v i,
          find-map_keeps (identity_row_after platform external v) (has_id i.id)
              (λ x. rw (identity_row_after-id platform external v x) refl) db.identities i mine,
          identity_row_after-user v i ∙ is_his,
        ),
      )

  same_itself : (p : Platform) → same_platform p p ≡ true
  same_itself telegram = refl
  same_itself Platform.max = refl

  insert_identity-Answers :
      (name : Option Text) (v : Values) (db : Tables)
      → IsLinked db
      → Answers (insert_identity platform external name v db)
  unfolding insert_identity
  insert_identity-Answers name v db l =
      elim (Option-cases (find (is_user platform external) db.identities)) [
        | inl free ↦
            rw (free, insert_identity)
              (
                db.next_identity,
                refl,
                (
                  new_identity db.next_identity db.next_person platform external v,
                  ground arith,
                  rw (same_itself platform) ((==ℤ_iff external external).1 refl),
                ),
              )
        | inr (x, taken) ↦
            rw (taken, insert_identity)
              (update_identity-Answers v (record db { next_person = suc db.next_person }) x
                (record {
                  keys = l.keys;
                  linked = l.linked;
                  fresh_person = λ pid le. l.fresh_person pid (omega arith);
                })
                taken)
      ]

  no_answer :
      (v : Values) (db : Tables) (id : ℕ)
      → find (is_user platform external) db.identities ≡ none
      → (update_identity platform external v db).0 ≢ some id
  unfolding update_identity
  no_answer v db id free e = absurd (ground arith)

  update_identity-IsOf :
      (v : Values) (db : Tables) (id : ℕ)
      → IsLinked db
      → (update_identity platform external v db).0 ≡ some id
      → IsOf id (update_identity platform external v db).1
  update_identity-IsOf v db id l e =
      elim (Option-cases (find (is_user platform external) db.identities)) [
        | inl free ↦ absurd (no_answer v db id free e)
        | inr (i, found) ↦
            let (id', e', his) = update_identity-Answers v db i l found in
            let same : id' ≡ id = cc (e, e') in
            subst (λ k. IsOf k (update_identity platform external v db).1) same his
      ]

  or_insert-Answers :
      (others : Tables → Tables) (name : Option Text) (v : Values) (o : Option ℕ) (db : Tables)
      → ((t : Tables) → IsLinked t → IsLinked (others t))
      → IsLinked db
      → ((id : ℕ) → o ≡ some id → IsOf id db)
      → Answers (or_insert others platform external name v (o, db))
  or_insert-Answers others name v none db keep l his =
      insert_identity-Answers name v (others db) (keep db l)
  or_insert-Answers others name v (some id) db keep l his = (id, refl, his id refl)

  module _ (distinct_sorted : List Text → List Text) where
    merge_into-IsOf :
        (target source moved id : ℕ) (phone : Text) (db : Tables)
        → IsOf id db
        → IsOf id (merge_into distinct_sorted target source moved phone db)
    unfolding merge_into
    merge_into-IsOf target source moved id phone db (i, found, his) =
        let same =
          absorb_person-identities distinct_sorted target source
            (record db { identities = map (move moved target) db.identities }) in
        let moved_row =
          find-map_keeps (move moved target) (has_id id) (λ x. ground arith) db.identities i
            found in
        (move moved target i, rw same moved_row, ground (arith, his))

    merge_with-IsOf :
        (me : Identity) (phone : Text) (id : ℕ) (o : Option Identity) (db : Tables)
        → IsOf id db
        → IsOf id (merge_with distinct_sorted me phone o db)
    unfolding merge_with
    merge_with-IsOf me phone id none db his = his
    merge_with-IsOf me phone id (some other) db his =
        elim (Bool-cases (ltb other.person_id me.person_id)) [
          | inl older ↦
              rw (older, merge_with)
                (merge_into-IsOf other.person_id me.person_id me.id id phone db his)
          | inr younger ↦
              rw (younger, merge_with)
                (merge_into-IsOf me.person_id other.person_id other.id id phone db his)
        ]

    merge_row-IsOf :
        (me : Identity) (phone : Option Text) (id : ℕ) (db : Tables)
        → IsOf id db
        → IsOf id (merge_row distinct_sorted me phone db)
    unfolding merge_row
    merge_row-IsOf me none id db his = his
    merge_row-IsOf me (some []) id db his = his
    merge_row-IsOf me (some (c ∷ cs)) id db his = elim (Bool-cases me.person_pinned) [
      | inl pinned ↦ rw (pinned, merge_row) his
      | inr free ↦
          rw (free, merge_row)
            (merge_with-IsOf me (c ∷ cs) id
              (first_by_person (filter (is_candidate me (c ∷ cs)) db.identities)) db his)
    ]

    auto_merge_found :
        (id : ℕ) (i : Identity) (db : Tables)
        → find (has_id id) db.identities ≡ some i
        → auto_merge_identity distinct_sorted id db ≡ some (merge_row distinct_sorted i i.phone db)
    unfolding auto_merge_identity
    auto_merge_found id i db found = rw (found, auto_merge_identity) refl

    fill_phone-IsOf :
        (id : ℕ) (phone : Text) (db : Tables) → IsOf id db → IsOf id (fill_phone id phone db)
    unfolding fill_phone
    fill_phone-IsOf id phone db his = his

    finish-IsOf :
        (phone : Option Text) (r : Option ℕ × Tables)
        → Answers r
        → (r' : ℕ × Tables) × (finish distinct_sorted phone r ≡ some r') × IsOf r'.0 r'.1
    unfolding finish
    finish-IsOf phone (none, db) (id, e, his) = absurd (cc)
    finish-IsOf none (some user, db) (id, e, his) =
        ((user, db), refl, subst (λ k. IsOf k db) (ground arith) his)
    finish-IsOf (some phone) (some user, db) (id, e, his) =
        let mine = fill_phone-IsOf user phone db (subst (λ k. IsOf k db) (ground arith) his) in
        let filled = fill_phone user phone db in
        let (i, found, is_his) = mine in
        (
          (user, merge_row distinct_sorted i i.phone filled),
          ap (with_tables distinct_sorted user) (auto_merge_found user i filled found),
          merge_row-IsOf i i.phone user filled mine,
        )

    followed-Answers :
        (later : Tables → Tables) (r : Option ℕ × Tables)
        → ((t : Tables) (id : ℕ) → IsOf id t → IsOf id (later t))
        → Answers r
        → Answers (followed later r)
    followed-Answers later r held (id, e, his) = (id, e, held r.1 id his)

    -- An upsert answers, and the row of the id that it answers with is the user's on the platform,
    -- if other transactions commit only between its update and its insert, where they keep the
    -- contacts linked, and between its row and its merge, where they leave the user's row, which
    -- the upsert has locked.
    pub upsert_identity_total :
        (is_decimal : ℕ → Bool) (others later : Tables → Tables) (row : UserRow) (db : Tables)
        → ((t : Tables) → IsLinked t → IsLinked (others t))
        → ((t : Tables) (id : ℕ) → IsOf id t → IsOf id (later t))
        → IsLinked db
        → row.external_id ≡ external
        → (r : ℕ × Tables) × (upsert_identity distinct_sorted is_decimal others later platform row
              db
            ≡ some r)
          × IsOf r.0 r.1
    unfolding upsert_identity
    upsert_identity_total is_decimal others later row db keep held l e =
        let v = values_of is_decimal row in
        let name = display_name row.first_name row.last_name row.username in
        let first = update_identity platform external v db in
        let second = or_insert others platform external name v first in
        let answers =
          or_insert-Answers others name v first.0 first.1 keep
            (update_identity-IsLinked platform external v db l)
            (λ id k. update_identity-IsOf v db id l k) in
        subst
          (λ k.
            (r : ℕ × Tables) × (finish distinct_sorted v.phone (
                followed later
                  (or_insert others platform k name v (update_identity platform k v db)))
              ≡ some r)
            × IsOf r.0 r.1)
          (sym e)
          (finish-IsOf v.phone (followed later second) (followed-Answers later second held answers))
