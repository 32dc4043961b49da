-- ===== src/WriteLimits/Left.antt =====
-- app/authz/write_limits.py: what is left of a window, and what a bundle may ask for.
use mathlib.Core.List.{Memᴰ}
use mathlib.Core.Path.{subst}
use native.Mathlib.Decide.{dec_lt}
use tg_my_person.Prelude.{
  ℕ, ◌-◌, ◌≤◌, ◌≡◌, refl, ◌↔◌, ◌≢◌, Bool, true, false, Option, none, some, List, [], ◌∷◌, String,
  arith, All, All-map, inl, inr, ◌⊎◌, sym,
}
use tg_my_person.WriteLimits.Settings.{
  Kind, send, action, lookup, group_create, group_invite, chat_join, contact_import, Limits, Tables,
  Effective, effective, or_no_limits,
}
use tg_my_person.WriteLimits.Counters.{
  per_minute, actions_per_hour, phone_lookups_per_day, groups_created_per_day,
  group_invites_per_day, chats_joined_per_day, contacts_imported_per_day, Window, window, windows,
  limit_of, same_kind, WriteEvent, count_window,
}
use tg_my_person.WriteLimits.Windows.{need, check_windows}
use tg_my_person.WriteLimits.Fits.{IsActive, Fits, check_windows-none_iff}
use tg_my_person.WriteLimits.Admission.{mem-All}
use tg_my_person.WriteLimits.Status.{window_left, left_of, count_named}

-- The window of a kind that has one; the sends have several.
abbrev pub own_window : Kind → Window
own_window send = window per_minute send 60
own_window action = window actions_per_hour action 3600
own_window lookup = window phone_lookups_per_day lookup 86400
own_window group_create = window groups_created_per_day group_create 86400
own_window group_invite = window group_invites_per_day group_invite 86400
own_window chat_join = window chats_joined_per_day chat_join 86400
own_window contact_import = window contacts_imported_per_day contact_import 86400

-- The kind's own window is the only one that counts it.
abbrev IsOwn : Kind → Window → Type 0
IsOwn kind w = (same_kind kind w.kind ≡ false) ⊎ (w ≡ own_window kind)

only-IsOwn : (kind : Kind) → kind ≢ send → All (IsOwn kind) windows
unfolding same_kind
only-IsOwn send h = absurd (h refl)
only-IsOwn action h = (
  inl refl,
  (
    inl refl,
    (
      inl refl,
      (inl refl, (inr refl, (inl refl, (inl refl, (inl refl, (inl refl, (inl refl, tt))))))),
    ),
  ),
)
only-IsOwn lookup h = (
  inl refl,
  (
    inl refl,
    (
      inl refl,
      (inl refl, (inl refl, (inr refl, (inl refl, (inl refl, (inl refl, (inl refl, tt))))))),
    ),
  ),
)
only-IsOwn group_create h = (
  inl refl,
  (
    inl refl,
    (
      inl refl,
      (inl refl, (inl refl, (inl refl, (inr refl, (inl refl, (inl refl, (inl refl, tt))))))),
    ),
  ),
)
only-IsOwn group_invite h = (
  inl refl,
  (
    inl refl,
    (
      inl refl,
      (inl refl, (inl refl, (inl refl, (inl refl, (inr refl, (inl refl, (inl refl, tt))))))),
    ),
  ),
)
only-IsOwn chat_join h = (
  inl refl,
  (
    inl refl,
    (
      inl refl,
      (inl refl, (inl refl, (inl refl, (inl refl, (inl refl, (inr refl, (inl refl, tt))))))),
    ),
  ),
)
only-IsOwn contact_import h = (
  inl refl,
  (
    inl refl,
    (
      inl refl,
      (inl refl, (inl refl, (inl refl, (inl refl, (inl refl, (inl refl, (inr refl, tt))))))),
    ),
  ),
)

own_window-mem : (kind : Kind) → Memᴰ (own_window kind) windows
own_window-mem send = Memᴰ.head refl
own_window-mem action = Memᴰ.tail (Memᴰ.tail (Memᴰ.tail (Memᴰ.tail (Memᴰ.head refl))))
own_window-mem lookup = Memᴰ.tail (Memᴰ.tail (Memᴰ.tail (Memᴰ.tail (Memᴰ.tail (Memᴰ.head refl)))))
own_window-mem group_create =
    Memᴰ.tail (Memᴰ.tail (Memᴰ.tail (Memᴰ.tail (Memᴰ.tail (Memᴰ.tail (Memᴰ.head refl))))))
own_window-mem group_invite =
    Memᴰ.tail
      (Memᴰ.tail (Memᴰ.tail (Memᴰ.tail (Memᴰ.tail (Memᴰ.tail (Memᴰ.tail (Memᴰ.head refl)))))))
own_window-mem chat_join = Memᴰ.tail (
    Memᴰ.tail
      (Memᴰ.tail (Memᴰ.tail (Memᴰ.tail (Memᴰ.tail (Memᴰ.tail (Memᴰ.tail (Memᴰ.head refl))))))))
own_window-mem contact_import = Memᴰ.tail (
    Memᴰ.tail (
      Memᴰ.tail
        (Memᴰ.tail (Memᴰ.tail (Memᴰ.tail (Memᴰ.tail (Memᴰ.tail (Memᴰ.tail (Memᴰ.head refl)))))))))

own_window_kind : (kind : Kind) → same_kind kind (own_window kind).kind ≡ true
unfolding same_kind
own_window_kind send = refl
own_window_kind action = refl
own_window_kind lookup = refl
own_window_kind group_create = refl
own_window_kind group_invite = refl
own_window_kind chat_join = refl
own_window_kind contact_import = refl

own_window_all : (kind : Kind) → (own_window kind).new_dialogs_only ≡ false
own_window_all send = refl
own_window_all action = refl
own_window_all lookup = refl
own_window_all group_create = refl
own_window_all group_invite = refl
own_window_all chat_join = refl
own_window_all contact_import = refl

module _ (events : List WriteEvent) (id : ℕ) (limits : Limits) (n now : ℕ) (nd : Bool) where
  others_fit :
      (kind : Kind) (w : Window)
      → same_kind kind w.kind ≡ false
      → Fits events id limits ((kind, n) ∷ []) now nd w
  unfolding need
  others_fit kind w h limit set a = absurd (ground arith)

  own-Fits :
      (kind : Kind) (w : Window) (limit : ℕ)
      → same_kind kind w.kind ≡ true
      → w.new_dialogs_only ≡ false
      → limit_of limits w.name ≡ some limit
      → Fits events id limits ((kind, n) ∷ []) now nd w ↔ (n ≤ limit - count_window events id w now)
  unfolding need
  own-Fits kind w limit same all_sends set = (
    λ h. elim (dec_lt 0 n) [
      | yes pos ↦
          let active : IsActive ((kind, n) ∷ []) nd w = (ground arith, inl all_sends) in
          ground (arith, h limit set active)
      | no zero_n ↦ omega arith
    ],
    λ k limit' set' a. ground arith,
  )

  All-Fits_iff :
      (kind : Kind) (limit : ℕ)
      → kind ≢ send
      → limit_of limits (own_window kind).name ≡ some limit
      → All (Fits events id limits ((kind, n) ∷ []) now nd) windows
        ↔ (n ≤ limit - count_window events id (own_window kind) now)
  All-Fits_iff kind limit ne set =
      let fits : Window → Type 0 = Fits events id limits ((kind, n) ∷ []) now nd in
      let iff =
        own-Fits kind (own_window kind) limit (own_window_kind kind) (own_window_all kind) set in
      (
        λ h. iff.0 (mem-All fits windows h (own_window-mem kind)),
        λ k.
            All-map (IsOwn kind) fits windows
              (λ w own. elim own [
                | inl other ↦ others_fit kind w other
                | inr same ↦ subst fits (sym same) (iff.1 k)
              ])
              (only-IsOwn kind ne),
      )

own_count :
    (events : List WriteEvent) (id now : ℕ) (kind : Kind)
    → count_named events id now (own_window kind).name
      ≡ count_window events id (own_window kind) now
own_count events id now send = refl
own_count events id now action = refl
own_count events id now lookup = refl
own_count events id now group_create = refl
own_count events id now group_invite = refl
own_count events id now chat_join = refl
own_count events id now contact_import = refl

left_of-some :
    (o : Option ℕ) (used left : ℕ)
    → left_of o used ≡ some left
    → (limit : ℕ) × (o ≡ some limit) × (left ≡ limit - used)
left_of-some none used left h = absurd (cc)
left_of-some (some limit) used left h = (limit, refl, cc)

window_left-some :
    (db : Tables) (events : List WriteEvent) (id now left : ℕ) (eff : Effective) (kind : Kind)
    → effective db id ≡ some eff
    → window_left db events id (own_window kind).name now ≡ some left
    → (limit : ℕ) × (limit_of (or_no_limits eff.limits) (own_window kind).name ≡ some limit)
      × (left ≡ limit - count_window events id (own_window kind) now)
unfolding window_left
window_left-some db events id now left eff kind e h = rw (← own_count events id now kind) (
    left_of-some (limit_of (or_no_limits eff.limits) (own_window kind).name)
      (count_named events id now (own_window kind).name) left (rw (e, window_left) at h))

-- A bundle of `n` events of one kind other than a send passes exactly when `window_left` of the
-- kind's window is at least `n`.
pub window_left_exact :
    (db : Tables) (events : List WriteEvent) (id now left n : ℕ) (eff : Effective) (kind : Kind)
    (tool : String) (nd : Bool)
    → kind ≢ send
    → effective db id ≡ some eff
    → eff.account_id ≡ id
    → window_left db events id (own_window kind).name now ≡ some left
    → (check_windows events eff (or_no_limits eff.limits) tool ((kind, n) ∷ []) now nd ≡ none)
      ↔ (n ≤ left)
window_left_exact db events id now left n eff kind tool nd ne e same h =
    let (limit, set, is_left) = window_left-some db events id now left eff kind e h in
    let passes =
      check_windows-none_iff events eff (or_no_limits eff.limits) tool ((kind, n) ∷ []) now nd in
    let iff =
      All-Fits_iff events eff.account_id (or_no_limits eff.limits) n now nd kind limit ne set in
    (
      λ c. rw (is_left, ← same) (iff.0 (passes.0 c)),
      λ k. passes.1 (iff.1 (rw (is_left, ← same) at k)),
    )
