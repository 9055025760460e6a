-- ===== src/Audit/Results.antt =====
-- Steps of an audit that end without an error, and what lists of its rows keep.
use testbed_services.Common.{◌≡◌, refl, List, [], ◌∷◌, map, All}
use testbed_services.Audit.Runs.{Audited, ok, audit_error, exception, ◌>>=◌}

pub >>=-eq-ok :
    {A B : Type 0} (o : Audited A) (f : A → Audited B) (b : B)
    → (o >>= f) ≡ ok b
    → (a : A) × (o ≡ ok a) × (f a ≡ ok b)
>>=-eq-ok (ok a) f b h = (a, refl, h)
>>=-eq-ok (audit_error e) f b h = absurd (cc h)
>>=-eq-ok (exception e) f b h = absurd (cc h)

module _ {A B : Type 0} (P : B → Type 0) (f : A → B) where
  pub All-map_of : (xs : List A) → All (λ x. P (f x)) xs → All P (map f xs)
  All-map_of [] h = tt
  All-map_of (x ∷ xs) h = (h.0, All-map_of xs h.1)

  pub All-of_all : ((x : A) → P (f x)) → (xs : List A) → All P (map f xs)
  All-of_all h [] = tt
  All-of_all h (x ∷ xs) = (h x, All-of_all h xs)
