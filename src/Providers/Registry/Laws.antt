-- ===== src/Providers/Registry/Laws.antt =====
-- The registry is a map from a capability and a provider to a factory.
use self_learning_trading_ag.Base.{
  ◌≡◌, refl, ap, ap₂, subst, ◌∙◌, sym, ◌↔◌, ◌⊎◌, inl, inr, true, false, ◌||◌, none, some, List, [],
  ◌∷◌, Text, text_eq, text_eq_refl, eq_of_text_eq, text_eq_join, ok, raise, arith, Bool-cases,
  Option-cases, if◌then◌else◌,
}
use self_learning_trading_ag.Providers.Registry.{
  text_le, insert, sorted, is_listed, Factories, is_entry, register_factory, find_factory, names,
  providers, create_provider,
}

is_listed-insert :
    (p x : Text) (xs : List Text) → is_listed p (insert x xs) ≡ (text_eq x p || is_listed p xs)
unfolding is_listed insert
is_listed-insert p x [] = refl
is_listed-insert p x (y ∷ ys) = ground (arith, is_listed-insert p x ys)

is_listed-sorted : (p : Text) (xs : List Text) → is_listed p (sorted xs) ≡ is_listed p xs
unfolding is_listed sorted
is_listed-sorted p [] = refl
is_listed-sorted p (x ∷ xs) =
    is_listed-insert p x (sorted xs) ∙ ap (λ b. text_eq x p || b) (is_listed-sorted p xs)

-- Every name of a sorted list is at most the next.
pub data Ascending : List Text → Type 0 where
  no_name : Ascending []
  one_name : {x : Text} → Ascending (x ∷ [])
  more :
      {x y : Text} {ys : List Text}
      → text_le x y ≡ true
      → Ascending (y ∷ ys)
      → Ascending (x ∷ (y ∷ ys))

text_le_total : (s t : Text) → text_le s t ≡ false → text_le t s ≡ true
unfolding text_le
text_le_total [] t h = ground arith
text_le_total (c ∷ s) [] h = refl
text_le_total (c ∷ s) (d ∷ t) h = ground (arith, text_le_total s t)

insert-Ascending : (x : Text) {ys : List Text} → Ascending ys → Ascending (insert x ys)
unfolding insert
insert-Ascending x no_name = one_name
insert-Ascending x (one_name {x = y}) = elim (Bool-cases (text_le x y)) [
  | inl e ↦ rw (e, insert) (more e one_name)
  | inr e ↦ rw (e, insert) (more (text_le_total x y e) one_name)
]
insert-Ascending x (more {x = y} {y = z} {ys = zs} h r) = elim (Bool-cases (text_le x y)) [
  | inl e ↦ rw (e, insert) (more e (more h r))
  | inr e ↦
      rw (e, insert)
        (elim (Bool-cases (text_le x z)) [
          | inl q ↦ rw q (more (text_le_total x y e) (more q r))
          | inr q ↦ rw q (more h (subst Ascending (rw (q, insert) refl) (insert-Ascending x r)))
        ])
]

pub sorted-Ascending : (xs : List Text) → Ascending (sorted xs)
unfolding sorted
sorted-Ascending [] = no_name
sorted-Ascending (x ∷ xs) = insert-Ascending x (sorted-Ascending xs)

is_entry-same :
    (c p c' p' : Text) (k : Text × Text)
    → is_entry c p k ≡ true
    → is_entry c' p' k ≡ is_entry c' p' (c, p)
unfolding is_entry
is_entry-same c p c' p' (x, y) h =
    ap₂ (λ u v. is_entry c' p' (u, v)) (eq_of_text_eq x c (ground arith))
      (eq_of_text_eq y p (ground arith))

is_entry-both :
    (c p c' p' : Text) (k : Text × Text)
    → is_entry c' p' k ≡ true
    → is_entry c' p' (c, p) ≡ true
    → is_entry c p k ≡ true
unfolding is_entry
is_entry-both c p c' p' (x, y) h h' = ground (arith, text_eq_join x c c', text_eq_join y p p')

module _ {A : Type 0} where
  find_factory-names :
      (capability provider : Text) (f : Factories A)
      → (find_factory capability provider f ≡ none)
        ↔ (is_listed provider (names capability f) ≡ false)
  unfolding find_factory names is_listed is_entry
  find_factory-names capability provider [] = ((λ h. refl), (λ h. refl))
  find_factory-names capability provider (((c, p), a) ∷ rest) =
      ground (arith, find_factory-names capability provider rest)

  find_factory-register_same :
      (c p : Text) (a : A) (f : Factories A) → find_factory c p (register_factory c p a f) ≡ some a
  unfolding find_factory register_factory is_entry
  find_factory-register_same c p a [] = rw (text_eq_refl c, text_eq_refl p) refl
  find_factory-register_same c p a ((k, b) ∷ rest) =
      ground (arith, find_factory-register_same c p a rest)

  find_factory-register_factory :
      (c p c' p' : Text) (a : A) (f : Factories A)
      → find_factory c' p' (register_factory c p a f)
        ≡ (if is_entry c' p' (c, p) then some a else find_factory c' p' f)
  unfolding find_factory register_factory
  find_factory-register_factory c p c' p' a [] = refl
  find_factory-register_factory c p c' p' a ((k, b) ∷ rest) = ground (
    arith,
    find_factory-register_factory c p c' p' a rest,
    is_entry-same c p c' p' k,
    is_entry-both c p c' p' k,
  )

  -- What `create` does with a name: it builds the factory that is registered under the two names
  -- if the provider is listed, and raises for another
  -- with the listed ones in ascending order.
  abbrev pub Created : (c p : Text) (f : Factories A) → Type 0
  Created c p f =
      Ascending (providers c f)
      × ((is_listed p (providers c f) ≡ true)
            × ((b : A) × (find_factory c p f ≡ some b) × (create_provider c p f ≡ ok b))
          ⊎ (is_listed p (providers c f) ≡ false)
            × (create_provider c p f
                ≡ raise (record { capability = c; provider = p; available = providers c f })))

  create_provider-Created : (c p : Text) (f : Factories A) → Created c p f
  unfolding create_provider providers
  create_provider-Created c p f = (
    sorted-Ascending (names c f),
    elim (Option-cases (find_factory c p f)) [
      | inl q ↦ inr (
        is_listed-sorted p (names c f) ∙ (find_factory-names c p f).0 q,
        rw (q, create_provider) refl,
      )
      | inr (b, q) ↦ inl (listed b q, (b, q, rw (q, create_provider) refl))
    ],
  )
    where
      listed : (b : A) → find_factory c p f ≡ some b → is_listed p (sorted (names c f)) ≡ true
      listed b q = elim (Bool-cases (is_listed p (sorted (names c f)))) [
        | inl y ↦ y
        | inr n ↦ cc (q, (find_factory-names c p f).1 (sym (is_listed-sorted p (names c f)) ∙ n))
      ]

  -- A registry is a map from two names to a factory: a registration gives its two names the new
  -- factory, in place of an earlier one, and changes no others; `create` with the two names builds
  -- the new factory; any listed provider is built by the factory under its two names, and any other
  -- raises with the listed ones in ascending order.
  pub create_provider-register_factory :
      (c p c' p' : Text) (a : A) (f : Factories A)
      → (find_factory c' p' (register_factory c p a f)
          ≡ (if is_entry c' p' (c, p) then some a else find_factory c' p' f))
        × (create_provider c p (register_factory c p a f) ≡ ok a)
        × Created c' p' (register_factory c p a f)
  unfolding create_provider
  create_provider-register_factory c p c' p' a f = (
    find_factory-register_factory c p c' p' a f,
    rw (find_factory-register_same c p a f, create_provider) refl,
    create_provider-Created c' p' (register_factory c p a f),
  )
