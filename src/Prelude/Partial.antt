-- ===== src/Prelude/Partial.antt =====
-- What holds of the value of a partial result, if there is one: for tests that name a next state.
use mathlib.Core.Path.{◌≡◌, refl, ap, ◌∙◌}
use mathlib.Core.Bool.{Bool, true, false}
use mathlib.Core.Option.{Option, none, some}
use rstp.Prelude.Tests.{if◌then◌else◌}

-- The bind of `do` blocks.
infixl 5 ◌>>=◌
abbrev pub ◌>>=◌ {ℓ κ} : {A : Type ℓ} {B : Type κ} → Option A → (A → Option B) → Option B
none >>= f = none
some a >>= f = f a

abbrev pub OnSome {ℓ} : {A : Type ℓ} → (A → Type 0) → Option A → Type 0
OnSome P none = Unit
OnSome P (some a) = P a

pub of_OnSome {ℓ} :
    {A : Type ℓ} (P : A → Type 0) (o : Option A) (a : A) → OnSome P o → o ≡ some a → P a
of_OnSome P o a h e = rw e at h

-- A guard around a chain of tests.
pub OnSome-guard {ℓ} :
    {A : Type ℓ} (P : A → Type 0) (b : Bool) (o : Option A)
    → OnSome P o
    → OnSome P (if b then o else none)
OnSome-guard P true o h = h
OnSome-guard P false o h = tt

-- The same view of the value, under another name.
pub OnSome-trans {ℓ} :
    {A : Type ℓ} {V : Type 0} (view : A → V) (o : Option A) {v w : V}
    → v ≡ w
    → OnSome (λ a. view a ≡ v) o
    → OnSome (λ a. view a ≡ w) o
OnSome-trans view none e h = tt
OnSome-trans view (some a) e h = h ∙ e

-- One of two results.
pub OnSome-if {ℓ} :
    {A : Type ℓ} (P : A → Type 0) (b : Bool) (o r : Option A)
    → OnSome P o
    → OnSome P r
    → OnSome P (if b then o else r)
OnSome-if P true o r h g = h
OnSome-if P false o r h g = g

-- A chain, by what holds of its first value.
pub OnSome-bind {ℓ κ} :
    {A : Type ℓ} {B : Type κ} (P : A → Type 0) (Q : B → Type 0) (o : Option A) (f : A → Option B)
    → OnSome P o
    → ((a : A) → P a → OnSome Q (f a))
    → OnSome Q (o >>= f)
OnSome-bind P Q none f h g = tt
OnSome-bind P Q (some a) f h g = g a h

-- The same where the chain is written out.
pub OnSome-elim {ℓ κ} :
    {A : Type ℓ} {B : Type κ} (P : A → Type 0) (Q : B → Type 0) (o : Option A) (f : A → Option B)
    → OnSome P o
    → ((a : A) → P a → OnSome Q (f a))
    → OnSome Q (elim o [ none ↦ none | some a ↦ f a ])
OnSome-elim P Q none f h g = tt
OnSome-elim P Q (some a) f h g = g a h

-- The branch that a failed test leaves.
pub OnSome-else {ℓ} :
    {A : Type ℓ} (P : A → Type 0) (b : Bool) (o r : Option A)
    → b ≡ false
    → OnSome P r
    → OnSome P (if b then o else r)
OnSome-else P true o r e h = cc
OnSome-else P false o r e h = h

-- A chain whose first value does not matter.
pub OnSome-each {ℓ κ} :
    {A : Type ℓ} {B : Type κ} (P : B → Type 0) (o : Option A) (f : A → Option B)
    → ((a : A) → OnSome P (f a))
    → OnSome P (o >>= f)
OnSome-each P none f h = tt
OnSome-each P (some a) f h = h a

pub OnSome-map {ℓ} :
    {A : Type ℓ} (P Q : A → Type 0) (o : Option A) → ((a : A) → P a → Q a) → OnSome P o → OnSome Q o
OnSome-map P Q none f h = tt
OnSome-map P Q (some a) f h = f a h

-- A search with a result for what is not found.
pub OnSome-found {ℓ κ} :
    {A : Type ℓ} {B : Type κ} (P : B → Type 0) (o : Option A) (other : Option B) (f : A → Option B)
    → OnSome P other
    → ((a : A) → OnSome P (f a))
    → OnSome P (elim o [ none ↦ other | some a ↦ f a ])
OnSome-found P none other f h g = h
OnSome-found P (some a) other f h g = g a

-- One of two results, each where its branch is taken.
pub OnSome-test {ℓ} :
    {A : Type ℓ} (P : A → Type 0) (b : Bool) (o r : Option A)
    → (b ≡ true → OnSome P o)
    → (b ≡ false → OnSome P r)
    → OnSome P (if b then o else r)
OnSome-test P true o r h g = h refl
OnSome-test P false o r h g = g refl

-- By the equation that gives the value.
pub OnSome-self {ℓ} :
    {A : Type ℓ} (P : A → Type 0) (o : Option A) → ((a : A) → o ≡ some a → P a) → OnSome P o
OnSome-self P none h = tt
OnSome-self P (some a) h = h a refl

-- A search, each of its outcomes with the equation for it.
pub OnSome-sought {ℓ κ} :
    {A : Type ℓ} {B : Type κ} (P : B → Type 0) (o : Option A) (other : Option B) (f : A → Option B)
    → (o ≡ none → OnSome P other)
    → ((a : A) → o ≡ some a → OnSome P (f a))
    → OnSome P (elim o [ none ↦ other | some a ↦ f a ])
OnSome-sought P none other f h g = h refl
OnSome-sought P (some a) other f h g = g a refl

pub OnSome-both {ℓ} :
    {A : Type ℓ} (P Q : A → Type 0) (o : Option A)
    → OnSome P o
    → OnSome Q o
    → OnSome (λ a. P a × Q a) o
OnSome-both P Q none h g = tt
OnSome-both P Q (some a) h g = (h, g)

-- Two partial results that stop alike, and whose values are related.
abbrev pub OnBoth {ℓ κ} :
    {A : Type ℓ} {B : Type κ} → (A → B → Type 0) → Option A → Option B → Type 0
OnBoth R none none = Unit
OnBoth R (some a) (some b) = R a b
OnBoth R none (some b) = ⊥
OnBoth R (some a) none = ⊥

pub OnBoth-bind {ℓ κ μ ν} :
    {A : Type ℓ} {B : Type κ} {C : Type μ} {D : Type ν} (R : A → B → Type 0) (Q : C → D → Type 0)
    (o : Option A) (r : Option B) (f : A → Option C) (g : B → Option D)
    → OnBoth R o r
    → ((a : A) (b : B) → R a b → OnBoth Q (f a) (g b))
    → OnBoth Q (o >>= f) (r >>= g)
OnBoth-bind R Q none none f g h k = tt
OnBoth-bind R Q (some a) (some b) f g h k = k a b h
OnBoth-bind R Q none (some b) f g h k = absurd h
OnBoth-bind R Q (some a) none f g h k = absurd h

-- With what holds of each of the values.
pub OnBoth-join {ℓ κ} :
    {A : Type ℓ} {B : Type κ} (R : A → B → Type 0) (P : A → Type 0) (Q : B → Type 0) (o : Option A)
    (r : Option B)
    → OnBoth R o r
    → OnSome P o
    → OnSome Q r
    → OnBoth (λ a b. R a b × P a × Q b) o r
OnBoth-join R P Q none none h p q = tt
OnBoth-join R P Q (some a) (some b) h p q = (h, p, q)
OnBoth-join R P Q none (some b) h p q = absurd h
OnBoth-join R P Q (some a) none h p q = absurd h

-- Related by a view of each.
pub OnBoth-view {ℓ κ} :
    {A : Type ℓ} {B : Type κ} {V : Type 0} (f : A → V) (g : B → V) (o : Option A) (r : Option B)
    → (o >>= (λ a. some (f a))) ≡ (r >>= (λ b. some (g b)))
    → OnBoth (λ a b. f a ≡ g b) o r
OnBoth-view f g none none e = tt
OnBoth-view f g (some a) (some b) e = cc
OnBoth-view f g none (some b) e = cc
OnBoth-view f g (some a) none e = cc

pub view-OnBoth {ℓ κ} :
    {A : Type ℓ} {B : Type κ} {V : Type 0} (f : A → V) (g : B → V) (o : Option A) (r : Option B)
    → OnBoth (λ a b. f a ≡ g b) o r
    → (o >>= (λ a. some (f a))) ≡ (r >>= (λ b. some (g b)))
view-OnBoth f g none none h = refl
view-OnBoth f g (some a) (some b) h = ap some h
view-OnBoth f g none (some b) h = absurd h
view-OnBoth f g (some a) none h = absurd h

-- A chain with a step that returns.
pub >>=-some {ℓ κ μ} :
    {A : Type ℓ} {B : Type κ} {C : Type μ} (o : Option A) (f : A → B) (g : B → Option C)
    → ((o >>= (λ a. some (f a))) >>= g) ≡ (o >>= (λ a. g (f a)))
>>=-some none f g = refl
>>=-some (some a) f g = refl

-- Chains one after the other, and chains that go on alike from what can come first.
pub >>=-assoc {ℓ κ μ} :
    {A : Type ℓ} {B : Type κ} {C : Type μ} (o : Option A) (f : A → Option B) (g : B → Option C)
    → ((o >>= f) >>= g) ≡ (o >>= (λ a. f a >>= g))
>>=-assoc none f g = refl
>>=-assoc (some a) f g = refl

pub >>=-ext {ℓ κ} :
    {A : Type ℓ} {B : Type κ} (P : A → Type 0) (o : Option A) (f g : A → Option B)
    → OnSome P o
    → ((a : A) → P a → f a ≡ g a)
    → (o >>= f) ≡ (o >>= g)
>>=-ext P none f g h e = refl
>>=-ext P (some a) f g h e = e a h

-- A chain that goes through another state.
pub >>=-through {ℓ κ μ} :
    {A : Type ℓ} {B : Type κ} {C : Type μ} (o : Option A) (f : A → Option C) (g : A → Option B)
    (h : B → Option C)
    → ((a : A) → f a ≡ (g a >>= h))
    → (o >>= f) ≡ ((o >>= g) >>= h)
>>=-through none f g h e = refl
>>=-through (some a) f g h e = e a
