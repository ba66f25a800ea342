-- ===== src/Dashboard/Screen/Lists.antt =====
-- The controls of a page that is put together of parts.
use triggerlink.Prelude.{
  ◌≡◌, refl, ap, ◌∙◌, sym, List, [], ◌∷◌, ◌++◌, append_assoc, Text, Bool, true, false,
  if◌then◌else◌, Option, none, some,
}
use triggerlink.Dashboard.Screen.{
  Item, words, button, when, with_text, all_words, offer, address, offers, links,
}

module _ {A : Type 0} where
  pub offers-append : (xs ys : List (Item A)) → offers (xs ++ ys) ≡ offers xs ++ offers ys
  unfolding offers
  offers-append [] ys = refl
  offers-append (x ∷ xs) ys =
      ap (λ r. offer x ++ r) (offers-append xs ys)
      ∙ sym (append_assoc (offer x) (offers xs) (offers ys))

  pub links-append : (xs ys : List (Item A)) → links (xs ++ ys) ≡ links xs ++ links ys
  unfolding links
  links-append [] ys = refl
  links-append (x ∷ xs) ys =
      ap (λ r. address x ++ r) (links-append xs ys)
      ∙ sym (append_assoc (address x) (links xs) (links ys))

  pub offers-all_words : (ts : List Text) → offers {A = A} (all_words ts) ≡ []
  unfolding offers
  offers-all_words [] = refl
  offers-all_words (t ∷ ts) = offers-all_words ts

  -- a text that may be left out
  pub offers-when_words :
      (shown : Bool) (t : Text) → offers {A = A} (when shown (words t ∷ [])) ≡ []
  unfolding offers
  offers-when_words true t = refl
  offers-when_words false t = refl

  pub offers-with_words :
      (o : Option Text) (say : Text → Text)
      → offers {A = A} (with_text o (λ t. words (say t) ∷ [])) ≡ []
  unfolding offers
  offers-with_words none say = refl
  offers-with_words (some []) say = refl
  offers-with_words (some (c ∷ t)) say = refl

  pub offers-when_button :
      (shown : Bool) (t : Text) (a : A)
      → offers (when shown (button t false a ∷ [])) ≡ (if shown then a ∷ [] else [])
  unfolding offers
  offers-when_button true t a = refl
  offers-when_button false t a = refl

module _ (A : Type 0) where
  pub links-all_words : (ts : List Text) → links {A = A} (all_words ts) ≡ []
  unfolding links
  links-all_words [] = refl
  links-all_words (t ∷ ts) = links-all_words ts

  pub links-when_words : (shown : Bool) (t : Text) → links {A = A} (when shown (words t ∷ [])) ≡ []
  unfolding links
  links-when_words true t = refl
  links-when_words false t = refl

  pub links-when_button :
      (shown : Bool) (t : Text) (a : A) → links (when shown (button t false a ∷ [])) ≡ []
  unfolding links
  links-when_button true t a = refl
  links-when_button false t a = refl

  pub links-with_words :
      (o : Option Text) (say : Text → Text)
      → links {A = A} (with_text o (λ t. words (say t) ∷ [])) ≡ []
  unfolding links
  links-with_words none say = refl
  links-with_words (some []) say = refl
  links-with_words (some (c ∷ t)) say = refl
