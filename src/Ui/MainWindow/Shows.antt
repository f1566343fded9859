-- ===== src/Ui/MainWindow/Shows.antt =====
-- What the window shows after a login.
use nullchat.Base.{
  ◌≡◌, refl, subst, ◌∙◌, Str, ◌==◌, Bool, true, false, ◌||◌, Option, none, some, List, [], ◌∷◌, All,
  arith, Option-cases, inl, inr,
}
use nullchat.Base.Map.{find, insert, find-insert}
use nullchat.Crypto.{OpenSsl}
use nullchat.Client.{GroupEntry}
use nullchat.P2P.{new_manager}
use nullchat.Ui.ContactList.{
  ContactInfo, ContactList, no_contacts, add_or_update_contact, clear_unread, select_first,
  set_admin_mode,
}
use nullchat.Ui.MainWindow.{MainWindow, contact_selected}
use nullchat.Ui.MainWindow
use nullchat.Ui.MainWindow.Login.{
  add_groups, switch_to_app, save_session, offer_pin, on_auth_success,
}

-- Whether a contact has the id.
abbrev pub listed : ContactList → Str → Bool
listed l id = elim (find id l.contacts) [ none ↦ false | some c ↦ true ]

listed-add_or_update_contact :
    (id name j : Str) (l : ContactList)
    → listed (add_or_update_contact id name l) j ≡ (j == id || listed l j)
unfolding add_or_update_contact
listed-add_or_update_contact id name j l =
    let new : ContactInfo = record { id = id; name = name; last_message = []; unread = 0 } in
    elim (Option-cases (find id l.contacts)) [
      | inl absent ↦ ground (arith, find-insert j id new l.contacts)
      | inr (c, present) ↦
          let renamed = record c { name = name } in
          ground (
            arith,
            find-insert j id renamed l.contacts,
            find-insert j id new (insert id renamed l.contacts),
          )
    ]

listed-clear_unread : (id j : Str) (l : ContactList) → listed (clear_unread id l) j ≡ listed l j
unfolding clear_unread
listed-clear_unread id j l = elim (Option-cases (find id l.contacts)) [
  | inl absent ↦ ground arith
  | inr (c, present) ↦ ground (arith, find-insert j id (record c { unread = 0 }) l.contacts)
]

listed-add_groups :
    (groups : List GroupEntry) (l : ContactList) (j : Str)
    → listed l j ≡ true
    → listed (add_groups groups l) j ≡ true
unfolding add_groups
listed-add_groups [] l j h = h
listed-add_groups (g ∷ groups) l j h =
    listed-add_groups groups (add_or_update_contact g.id g.name l) j
      (ground (arith, listed-add_or_update_contact g.id g.name j l))

add_groups_listed :
    (groups : List GroupEntry) (l : ContactList)
    → All (λ g. listed (add_groups groups l) g.id ≡ true) groups
unfolding add_groups
add_groups_listed [] l = tt
add_groups_listed (g ∷ groups) l = (
  listed-add_groups groups (add_or_update_contact g.id g.name l) g.id
      (ground (arith, listed-add_or_update_contact g.id g.name g.id l)),
  add_groups_listed groups (add_or_update_contact g.id g.name l),
)

listed-switch_to_app :
    (w : MainWindow) (j : Str)
    → listed (switch_to_app w).channel_list j
      ≡ listed (add_groups w.network.initial_groups no_contacts) j
unfolding switch_to_app contact_selected set_admin_mode
listed-switch_to_app w j =
    let l = add_groups w.network.initial_groups no_contacts in
    elim (Option-cases (select_first l)) [
      | inl nothing ↦ rw (switch_to_app, nothing) refl
      | inr (id, chosen) ↦ rw (switch_to_app, chosen) (listed-clear_unread id j l)
    ]

-- What a login shows: the page of the app, for this user, with each of the groups.
pub record Shows (w : MainWindow) (id name : Str) (groups : List GroupEntry) : Type 0 where
  pub page : w.page ≡ MainWindow.app
  pub built : w.built ≡ true
  pub user_id : w.user_id ≡ id
  pub username : w.username ≡ name
  pub channels : All (λ g. listed w.channel_list g.id ≡ true) groups

All-imp {ℓ κ μ} :
    {A : Type ℓ} {P : A → Type κ} {Q : A → Type μ} (xs : List A)
    → ((x : A) → P x → Q x)
    → All P xs
    → All Q xs
All-imp [] f all = tt
All-imp (x ∷ xs) f all = (f x all.0, All-imp xs f all.1)

switch_to_app-Shows :
    (w : MainWindow) → Shows (switch_to_app w) w.user_id w.username w.network.initial_groups
unfolding switch_to_app contact_selected
switch_to_app-Shows w =
    let groups = w.network.initial_groups in
    let channels =
      All-imp {P = λ g. listed (add_groups groups no_contacts) g.id ≡ true} groups
        (λ g h. listed-switch_to_app w g.id ∙ h) (add_groups_listed groups no_contacts) in
    elim (Option-cases (select_first (add_groups groups no_contacts))) [
      | inl nothing ↦ record {
        page = refl;
        built = refl;
        user_id = rw (switch_to_app, nothing) refl;
        username = rw (switch_to_app, nothing) refl;
        channels = channels;
      }
      | inr (id, chosen) ↦ record {
        page = refl;
        built = refl;
        user_id = rw (switch_to_app, chosen) refl;
        username = rw (switch_to_app, chosen) refl;
        channels = channels;
      }
    ]

-- The offer of a PIN changes nothing of this.
offer_pin_keeps :
    (ssl : OpenSsl) (pin : Option Str) (w : MainWindow)
    → let x = offer_pin ssl pin w in
      (x.user_id ≡ w.user_id)
      × (x.username ≡ w.username)
      × (x.network.initial_groups ≡ w.network.initial_groups)
unfolding offer_pin save_session
offer_pin_keeps ssl none w = (refl, refl, refl)
offer_pin_keeps ssl (some pin) w = (ground arith, ground arith, ground arith)

pub on_auth_success-Shows :
    (ssl : OpenSsl) (pin : Option Str) (id name : Str) (w : MainWindow)
    → Shows (on_auth_success ssl pin id name w) id name w.network.initial_groups
unfolding on_auth_success
on_auth_success-Shows ssl pin id name w =
    let known = record w {
      user_id = id;
      username = name;
      is_null = w.network.is_null;
      p2p = some (new_manager w.crypto);
    } in
    let x = offer_pin ssl pin known in
    let (user_id, username, groups) = offer_pin_keeps ssl pin known in
    let shows = switch_to_app-Shows x in
    record {
      page = shows.page;
      built = shows.built;
      user_id = shows.user_id ∙ user_id;
      username = shows.username ∙ username;
      channels =
          subst (All (λ g. listed (switch_to_app x).channel_list g.id ≡ true)) groups
            shows.channels;
    }
