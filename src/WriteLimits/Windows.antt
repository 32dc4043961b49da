-- ===== src/WriteLimits/Windows.antt =====
-- app/authz/write_limits.py: `_check_windows` and the refusal that it raises.
-- A dict of needs is a list of its items. A message is kept as the case of its wording: the rest
-- of its text is made of the other fields of the body.
use tg_my_person.Prelude.{
  ℕ, ◌+◌, ◌-◌, String, Bool, true, false, not, ◌&&◌, ◌||◌, Option, none, some, List, [], ◌∷◌, map,
  ltb, ◌==◌, if◌then◌else◌, filter,
}
use tg_my_person.Models.{Platform}
use tg_my_person.WriteLimits.Settings.{Kind, Limits, Effective}
use tg_my_person.WriteLimits.Counters.{
  WindowName, per_minute, per_hour, per_day, new_dialogs_per_day, actions_per_hour,
  phone_lookups_per_day, groups_created_per_day, group_invites_per_day, chats_joined_per_day,
  contacts_imported_per_day, Window, windows, limit_of, same_kind, WriteEvent, count_window,
  retry_after,
}

abbrev pub Needs : Type 0
Needs = List (Kind × ℕ)

-- `needs.get(kind, 0)`
unfoldable pub need : Needs → Kind → ℕ
need [] kind = 0
need ((k, n) ∷ needs) kind = if same_kind k kind then n else need needs kind

pub data Message : Type 0 where
  off never_fit do_not_fit reached : Message

pub record RateLimit : Type 0 where
  pub limit : WindowName
  pub max : ℕ
  pub used : ℕ
  pub remaining : ℕ
  pub requested : ℕ
  pub retry_after : Option ℕ
  pub also : List WindowName
  pub tool : String
  pub alias : String
  pub platform : Platform
  pub message : Message

pub record Queued : Type 0 where
  pub max : ℕ
  pub queued_wait_sec : ℕ
  pub retry_after : ℕ
  pub tool : String
  pub alias : String
  pub platform : Platform

pub record WritesDisabled : Type 0 where
  pub tool : String
  pub alias : String
  pub platform : Platform

pub data Body : Type 0 where
  rate_limit : RateLimit → Body
  min_interval : Queued → Body
  writes_disabled : WritesDisabled → Body

-- The exception, with the status and the header of its response.
pub record WriteLimited : Type 0 where
  pub status : ℕ
  pub body : Body
  pub retry_after : Option ℕ

-- One item of the list `full`.
pub record Full : Type 0 where
  pub window : Window
  pub limit : ℕ
  pub used : ℕ
  pub wait_for : Option ℕ
  pub n : ℕ

abbrev message_of : ℕ → Option ℕ → ℕ → Message
message_of limit none n = if limit == 0 then off else never_fit
message_of limit (some retry) n =
    if limit == 0 then off else if ltb 1 n then do_not_fit else reached

unfoldable pub refusal : Effective → String → Full → List WindowName → WriteLimited
refusal eff tool f also = record {
  status = 429;
  body = rate_limit (record {
    limit = f.window.name;
    max = f.limit;
    used = f.used;
    remaining = f.limit - f.used;
    requested = f.n;
    retry_after = f.wait_for;
    also = also;
    tool = tool;
    alias = eff.alias;
    platform = eff.platform;
    message = message_of f.limit f.wait_for f.n;
  });
  retry_after = f.wait_for;
}

abbrev pub name_number : WindowName → ℕ
name_number per_minute = 0
name_number per_hour = 1
name_number per_day = 2
name_number new_dialogs_per_day = 3
name_number actions_per_hour = 4
name_number phone_lookups_per_day = 5
name_number groups_created_per_day = 6
name_number group_invites_per_day = 7
name_number chats_joined_per_day = 8
name_number contacts_imported_per_day = 9

-- Two windows of `WINDOWS` are the same object when their names are the same.
unfoldable pub same_window : Window → Window → Bool
same_window v w = name_number v.name == name_number w.name

module _ (events : List WriteEvent) (account_id : ℕ) (limits : Limits) (needs : Needs) (now : ℕ)
    (new_dialog : Bool) where
  -- The test of one window whose limit is set.
  unfoldable pub test_limit : Window → ℕ → Option Full
  test_limit w limit =
      let n = need needs w.kind in
      let used = count_window events account_id w now in
      if n == 0 || (w.new_dialogs_only && not new_dialog)
      then none
      else if ltb limit (used + n)
      then some (record {
        window = w;
        limit = limit;
        used = used;
        wait_for =
            if ltb limit n then none else some (retry_after events account_id w now used limit n);
        n = n;
      })
      else none

  -- The body of the loop.
  unfoldable pub full_window : Window → Option Full
  unfolding test_limit
  full_window w = elim (limit_of limits w.name) [ none ↦ none | some limit ↦ test_limit w limit ]

  unfoldable pub full_windows : List Window → List Full
  full_windows [] = []
  full_windows (w ∷ ws) =
      let rest = full_windows ws in elim (full_window w) [ none ↦ rest | some f ↦ f ∷ rest ]

-- `<` on the keys of `max`, where no wait is infinity.
unfoldable pub shorter : Option ℕ → Option ℕ → Bool
shorter none b = false
shorter (some a) none = true
shorter (some a) (some b) = ltb a b

-- `max` over the list, which keeps the first of equal keys.
unfoldable pub longest : Full → List Full → Full
unfolding shorter
longest best [] = best
longest best (f ∷ fs) = longest (if shorter best.wait_for f.wait_for then f else best) fs

unfoldable pub raise_longest : Effective → String → List Full → Option WriteLimited
raise_longest eff tool [] = none
raise_longest eff tool (f ∷ fs) =
    let worst = longest f fs in
    some (
      refusal eff tool worst
        (map (λ g. g.window.name) (filter (λ g. not (same_window g.window worst.window)) (f ∷ fs))))

-- `none` where nothing is raised.
unfoldable pub check_windows :
    List WriteEvent → Effective → Limits → String → Needs → ℕ → Bool → Option WriteLimited
unfolding raise_longest
check_windows events eff limits tool needs now new_dialog =
    raise_longest eff tool (full_windows events eff.account_id limits needs now new_dialog windows)
