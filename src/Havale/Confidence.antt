-- ===== src/Havale/Confidence.antt =====
-- What a listing gives away, and to whom (`getById` of backend/src/modules/havale/havale.service.js
-- and backend/src/modules/havale/havale.dto.js).
use havale_khodro.Prelude.{
  ◌≡◌, arith, ◌==◌, present, is_id, ℕ, Bool, true, ◌&&◌, ◌||◌, some, Bool-cases, inl, inr, ap, sym,
}
use havale_khodro.Schema.Entities.{User, Listing, Db}
use havale_khodro.Havale.Opening.{get_by_id, opened}
use havale_khodro.Access.{Access}
use havale_khodro.Havale.Cards.{Card, IsGiven, to_own_havale, to_havale_card}
use havale_khodro.Exec.{done, not_found, havale_row}
use havale_khodro.Reveal.{find_reveal}
use havale_khodro.Havale.Store.{find_by_id, find_by_id_found}
use havale_khodro.Schema.Enums.{account_active, listing_active}
use havale_khodro.Exec.Laws.{found-done, require-done}
use havale_khodro.Network.{may_view}

-- The viewer is the owner, or the reseller that the owner is a sub-agency of.
abbrev pub is_family : User → Listing → User → Bool
is_family user l owner =
    l.owner_id == user.id || (user.is_reseller && is_id owner.parent_id user.id)

-- An opened card, for a row with its owner.
pub record IsConfident (user : User) (access : Access) (s : Db) (l : Listing) (o : User) (c : Card)
    : Type 0 where
  pub gives :
      IsGiven (is_family user l o || (access.active && present (find_reveal l.id user.id s))) l o c
  pub browsable :
      (is_family user l o
        || (account_active o.status && listing_active l.status && may_view (some user) l o))
      ≡ true

opened-card :
    (user : User) (access : Access) (l : Listing) (o : User) (revealed : Bool) (s t : Db) (c : Card)
    → opened user access l o revealed s ≡ done c t
    → IsGiven (is_family user l o || (access.active && revealed)) l o c
      × ((is_family user l o
            || (account_active o.status && listing_active l.status && may_view (some user) l o))
          ≡ true)
      × (t ≡ s)
unfolding opened to_own_havale to_havale_card
opened-card user access l o revealed s t c h = elim (Bool-cases (l.owner_id == user.id)) [
  | inl own ↦ (
    record {
      text = ground arith;
      agency = ground arith;
      contact = ground arith;
      revealed = ground arith;
    },
    ground arith,
    ground arith,
  )
  | inr other ↦ elim (Bool-cases (user.is_reseller && is_id o.parent_id user.id)) [
    | inl family ↦ (
      record {
        text = ground arith;
        agency = ground arith;
        contact = ground arith;
        revealed = ground arith;
      },
      ground arith,
      ground arith,
    )
    | inr stranger ↦
        let (a, h1) =
          require-done (account_active o.status && listing_active l.status) (not_found havale_row) _
            s t c (rw (other, stranger) at h) in
        let (v, h2) = require-done (may_view (some user) l o) (not_found havale_row) _ s t c h1 in
        (
          record {
            text = ground arith;
            agency = ground arith;
            contact = ground arith;
            revealed = ground arith;
          },
          ground (arith, a, v),
          ground arith,
        )
  ]
]

IsGiven-eq :
    (a b : Bool) (l : Listing) (o : User) (c : Card) → a ≡ b → IsGiven a l o c → IsGiven b l o c
IsGiven-eq a b l o c e g = rw (sym e) g

-- A listing that is opened by its identifier is not deleted. Its text, its agency and its contact are
-- all on the card for its owner, for the reseller above its owner, and for a viewer with an active
-- subscription who has a recorded reveal of it, and none of the three for anybody else. Anybody else
-- opens it only while it and its owner are active, and only where its visibility admits the viewer.
-- Nothing is written.
pub get_by_id-IsConfident :
    (user : User) (access : Access) (id : ℕ) (s t : Db) (c : Card)
    → get_by_id user access id s ≡ done c t
    → (l : Listing) × (o : User) × (find_by_id id s ≡ some (l, o))
      × IsConfident user access s l o c
      × (t ≡ s)
unfolding get_by_id
get_by_id-IsConfident user access id s t c h =
    let (row, e, q) = found-done (find_by_id id s) (not_found havale_row) _ s t c h in
    let i = (find_by_id_found id s row e).1 in
    let revealed = access.active && present (find_reveal id user.id s) in
    let (g, b, w) = opened-card user access row.0 row.1 revealed s t c q in
    (
      row.0,
      row.1,
      e,
      record {
        gives =
            IsGiven-eq _ _ row.0 row.1 c (ground (arith, ap (λ k. find_reveal k user.id s) i)) g;
        browsable = b;
      },
      w,
    )
