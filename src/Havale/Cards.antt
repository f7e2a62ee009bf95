-- ===== src/Havale/Cards.antt =====
-- backend/src/modules/havale/havale.dto.js: how a listing is shown. The columns that every card
-- carries are the row's; `masked` says that `maskAllText` has gone over their text.
use havale_khodro.Prelude.{
  ◌≡◌, if◌then◌else◌, present, ℕ, String, Bool, true, false, not, Option, none, some,
}
use havale_khodro.Reveal.{Agency, Contact, agency_of, contact_of}
use havale_khodro.Schema.Entities.{Listing, User}

pub record Card : Type 0 where
  pub id : ℕ
  pub masked : Bool
  pub is_own : Bool
  pub reveal_count : ℕ
  pub description : Option String
  pub has_description : Bool
  pub agency : Option Agency
  pub contact : Option Contact
  pub contact_revealed : Bool

-- The card before the contact is opened.
abbrev closed_card : Listing → Bool → Card
closed_card l revealed = record {
  id = l.id;
  masked = not revealed;
  is_own = false;
  reveal_count = l.reveal_count;
  description = none;
  has_description = present l.description;
  agency = none;
  contact = none;
  contact_revealed = false;
}

-- For somebody who is not the owner.
unfoldable pub to_havale_card : Listing → User → Bool → Bool → Card
to_havale_card l owner subscription_active revealed =
    if not subscription_active
    then closed_card l revealed
    else if revealed
    then record (closed_card l revealed) {
      contact_revealed = true;
      description = l.description;
      agency = some (agency_of owner);
      contact = some (contact_of owner);
    }
    else closed_card l revealed

unfoldable pub to_own_havale : Listing → User → Card
to_own_havale l owner = record {
  id = l.id;
  masked = false;
  is_own = true;
  reveal_count = l.reveal_count;
  description = l.description;
  has_description = present l.description;
  agency = some (agency_of owner);
  contact = some (contact_of owner);
  contact_revealed = true;
}

-- The text, the agency and the contact of a listing are on the card, all of them or none.
pub record IsGiven (gives : Bool) (l : Listing) (owner : User) (c : Card) : Type 0 where
  pub text : c.description ≡ (if gives then l.description else none)
  pub agency : c.agency ≡ (if gives then some (agency_of owner) else none)
  pub contact : c.contact ≡ (if gives then some (contact_of owner) else none)
  pub revealed : c.contact_revealed ≡ gives
