-- ===== src/Server/Action/Runs.antt =====
-- How an action ends, as a postcondition with one rule for each way to build an action.
use Prim.Native.String.{String}
use hse_project_2026_chronos.Base.{
  ℕ, suc, ◌≡◌, refl, sym, subst, ltb, Bool, true, false, Option, none, some, List, [], ◌∷◌,
  if◌then◌else◌, arith,
}
use hse_project_2026_chronos.Server.Rows.{Text}
use hse_project_2026_chronos.Server.Tables.{Tables, NextIds}
use hse_project_2026_chronos.Server.Http.{Libraries}
use hse_project_2026_chronos.Server.Action.{
  World, M, Result, Failure, ok, failed, pure, fail, lift, fail_if, found_or, nextval, id_limit,
  constructed, construct, get_world, get_tables, put_tables, acquire, transaction, roll_back,
  rewrap, rewrapping, continue_with, ◌>>=◌, ◌>>◌,
}
use hse_project_2026_chronos.Server.Action.Worlds.{
  Same, Later, LaterIds, Idle, Fresh, Same-refl, Later-refl, Later-of_same,
}

module _ {A : Type 0} (Q : A → World → Type 0) (E : World → Type 0) where
  abbrev pub Ends : Result A × World → Type 0
  Ends (ok a, w) = Q a w
  Ends (failed f, w) = E w

-- `m` from `w` returns with `Q` or throws with `E`.
pub record Post {A : Type 0} (m : M A) (w : World) (Q : A → World → Type 0) (E : World → Type 0)
    : Type 0 where
  pub ends : Ends Q E (m w)

module _ {A : Type 0} where
  Ends-mono :
      {Q Q' : A → World → Type 0} {E E' : World → Type 0} (end : Result A × World)
      → Ends Q E end
      → ((a : A) (w : World) → Q a w → Q' a w)
      → ((w : World) → E w → E' w)
      → Ends Q' E' end
  Ends-mono (ok a, w) h f g = f a w h
  Ends-mono (failed e, w) h f g = g w h

  pub Post_mono :
      {m : M A} {w : World} {Q Q' : A → World → Type 0} {E E' : World → Type 0}
      → Post m w Q E
      → ((a : A) (w : World) → Q a w → Q' a w)
      → ((w : World) → E w → E' w)
      → Post m w Q' E'
  Post_mono {m} {w} p f g = record { ends = Ends-mono (m w) p.ends f g }

  Ends-rewrap :
      (lib : Libraries) (prefix : String) (Q : A → World → Type 0) (E : World → Type 0)
      (end : Result A × World)
      → Ends Q E end
      → Ends Q E (rewrap lib prefix end)
  Ends-rewrap lib prefix Q E (ok a, w) h = h
  Ends-rewrap lib prefix Q E (failed e, w) h = h

  pub Post-rewrapping :
      (lib : Libraries) (prefix : String) {m : M A} {w : World} {Q : A → World → Type 0}
      {E : World → Type 0}
      → Post m w Q E
      → Post (rewrapping lib prefix m) w Q E
  unfolding rewrapping
  Post-rewrapping lib prefix {m} {w} {Q} {E} p = record {
    ends = Ends-rewrap lib prefix Q E (m w) p.ends;
  }

module _ {A B : Type 0} where
  Ends-continue :
      {Q' : A → World → Type 0} {E' : World → Type 0} {Q : B → World → Type 0} {E : World → Type 0}
      (k : A → M B) (end : Result A × World)
      → Ends Q' E' end
      → ((a : A) (w : World) → Q' a w → Post (k a) w Q E)
      → ((w : World) → E' w → E w)
      → Ends Q E (continue_with end.0 end.1 k)
  Ends-continue k (ok a, w) h next g = (next a w h).ends
  Ends-continue k (failed e, w) h next g = g w h

  pub Post-bind :
      {m : M A} {k : A → M B} {w : World} {Q' : A → World → Type 0} {E' : World → Type 0}
      {Q : B → World → Type 0} {E : World → Type 0}
      → Post m w Q' E'
      → ((w : World) → E' w → E w)
      → ((a : A) (w : World) → Q' a w → Post (k a) w Q E)
      → Post (m >>= k) w Q E
  unfolding ◌>>=◌
  Post-bind {m} {k} {w} p g next = record { ends = Ends-continue k (m w) p.ends next g }

module _ {A B : Type 0} {m : M A} {k : A → M B} {w : World} {Q : B → World → Type 0}
    {E : World → Type 0} where
  pub Post-then : Post m w (λ a w'. Post (k a) w' Q E) E → Post (m >>= k) w Q E
  Post-then p = Post-bind p (λ _ h. h) (λ _ _ h. h)

pub Post-acquire : (lib : Libraries) (w : World) → Post (acquire lib) w (λ _. Same w) (Same w)
unfolding acquire
Post-acquire lib w = record { ends = ends w.outages }
  where
    ends :
        (outages : List Bool)
        → Ends {A = Unit {0}}
            (λ _. Same w)
            (Same w)
            (elim outages [
              | [] ↦ (ok tt, w)
              | down ∷ rest ↦ (
                if down then failed (Failure.runtime_error lib.connection_error) else ok tt,
                record w { outages = rest },
              )
            ])
    ends [] = Same-refl w
    ends (true ∷ rest) = record { tables_same = refl; ids_same = refl; now_same = refl }
    ends (false ∷ rest) = record { tables_same = refl; ids_same = refl; now_same = refl }

module _ {A : Type 0} where
  Ends-roll_back :
      (Q : A → World → Type 0) (w : World) (end : Result A × World)
      → Ends Q (Later w) end
      → Ends Q (Idle w) (roll_back w.tables end)
  Ends-roll_back Q w (ok a, w') h = h
  Ends-roll_back Q w (failed f, w') h = record { tables_kept = refl; later = h }

  pub Post-transaction :
      (lib : Libraries) {m : M A} {w : World} {Q : A → World → Type 0}
      → ((w' : World) → Same w w' → Post m w' Q (Later w))
      → Post (transaction lib m) w Q (Idle w)
  unfolding transaction
  Post-transaction lib {m} {w} {Q} run = record {
    ends =
        Ends-roll_back Q w ((acquire lib >> m) w)
          (Post-bind (Post-acquire lib w) (λ _. Later-of_same) (λ _. run)).ends;
  }

  pub Post-pure :
      (a : A) {w : World} {Q : A → World → Type 0} {E : World → Type 0}
      → Q a w
      → Post (pure a) w Q E
  unfolding pure
  Post-pure a h = record { ends = h }

module _ {A : Type 0} (Q : A → World → Type 0) (E : World → Type 0) {w : World} where
  Ends-constructed :
      (a : A) (o : Option Text) → (o ≡ none → Q a w) → E w → Ends Q E (constructed a o, w)
  Ends-constructed a none h e = h refl
  Ends-constructed a (some message) h e = e

module _ {A : Type 0} {w : World} {Q : A → World → Type 0} {E : World → Type 0} where
  pub Post-fail : (f : Failure) → E w → Post (fail f) w Q E
  unfolding fail
  Post-fail f h = record { ends = h }

  pub Post-lift : (r : Result A) → ((a : A) → r ≡ ok a → Q a w) → E w → Post (lift r) w Q E
  unfolding lift
  Post-lift (ok a) h e = record { ends = h a refl }
  Post-lift (failed f) h e = record { ends = e }

  pub Post-found_or :
      (o : Option A) (f : Failure)
      → ((a : A) → o ≡ some a → Q a w)
      → E w
      → Post (found_or o f) w Q E
  unfolding found_or
  Post-found_or (some a) f h e = record { ends = h a refl }
  Post-found_or none f h e = record { ends = e }

  pub Post-found_there :
      (o : Option A) (f : Failure) (a : A) → o ≡ some a → Q a w → Post (found_or o f) w Q E
  unfolding found_or
  Post-found_there o f a there h =
      subst (λ o. Post (found_or o f) w Q E) (sym there) (record { ends = h })

  pub Post-construct_valid :
      (error : A → Option Text) (a : A) → error a ≡ none → Q a w → Post (construct error a) w Q E
  unfolding construct
  Post-construct_valid error a valid h = record {
    ends = subst (λ o. Ends Q E (constructed a o, w)) (sym valid) h;
  }

  pub Post-construct :
      (error : A → Option Text) (a : A)
      → (error a ≡ none → Q a w)
      → E w
      → Post (construct error a) w Q E
  unfolding construct
  Post-construct error a h e = record { ends = Ends-constructed Q E a (error a) h e }

pub Post-fail_if :
    {w : World} {Q : Unit {0} → World → Type 0} {E : World → Type 0} (b : Bool) (f : Failure)
    → (b ≡ false → Q tt w)
    → E w
    → Post (fail_if b f) w Q E
unfolding fail_if
Post-fail_if true f h e = record { ends = e }
Post-fail_if false f h e = record { ends = h refl }

pub Post-passes :
    {w : World} {Q : Unit {0} → World → Type 0} {E : World → Type 0} (b : Bool) (f : Failure)
    → b ≡ false
    → Q tt w
    → Post (fail_if b f) w Q E
unfolding fail_if
Post-passes true f h q = absurd cc
Post-passes false f h q = record { ends = q }

module _ {w : World} {E : World → Type 0} where
  pub Post-get_world : {Q : World → World → Type 0} → Q w w → Post get_world w Q E
  unfolding get_world
  Post-get_world h = record { ends = h }

  pub Post-get_tables : {Q : Tables → World → Type 0} → Q w.tables w → Post get_tables w Q E
  unfolding get_tables
  Post-get_tables h = record { ends = h }

  pub Post-put_tables :
      {Q : Unit {0} → World → Type 0} (t : Tables)
      → Q tt (record w { tables = t })
      → Post (put_tables t) w Q E
  unfolding put_tables
  Post-put_tables t h = record { ends = h }

module _ {A : Type 0} (Q : A → World → Type 0) (E : World → Type 0) where
  pub Ends-if :
      (b : Bool) (x y : Result A × World)
      → (b ≡ true → Ends Q E x)
      → (b ≡ false → Ends Q E y)
      → Ends Q E (if b then x else y)
  Ends-if true x y f g = f refl
  Ends-if false x y f g = g refl

module _ {A : Type 0} {Q : A → World → Type 0} {E : World → Type 0} where
  pub Post-if :
      (b : Bool) (m n : M A) (w : World)
      → (b ≡ true → Post m w Q E)
      → (b ≡ false → Post n w Q E)
      → Post (if b then m else n) w Q E
  Post-if true m n w f g = f refl
  Post-if false m n w f g = g refl

pub Post-nextval :
    (sequence : NextIds → ℕ) (bump : NextIds → NextIds) (w : World)
    → LaterIds w.next_ids (bump w.next_ids)
    → sequence (bump w.next_ids) ≡ suc (sequence w.next_ids)
    → Post
        (nextval sequence bump)
        w
        (λ id w'. Fresh sequence w.next_ids w'.next_ids id × (w'.tables ≡ w.tables))
        (Later w)
unfolding nextval
Post-nextval sequence bump w later next = record {
  ends =
      Ends-if _ _ (ltb (sequence w.next_ids) id_limit) _ _
        (λ _.
          (record { later = later; not_below = omega arith; below = omega (arith, next) }, refl))
        (λ _. Later-refl w.next_ids);
}

-- The steps of a handler before its write: tests, fields of the request and model objects.
module _ {B : Type 0} {w : World} {Q : B → World → Type 0} {E : World → Type 0} (e : E w) where
  pub Post-check :
      (b : Bool) (f : Failure) (k : Unit {0} → M B)
      → (b ≡ false → Post (k tt) w Q E)
      → Post (fail_if b f >>= k) w Q E
  Post-check b f k next = Post-then (Post-fail_if b f next e)

module _ {A B : Type 0} {w : World} {Q : B → World → Type 0} {E : World → Type 0} (e : E w) where
  pub Post-field :
      {r : Result A} {k : A → M B}
      → ((a : A) → r ≡ ok a → Post (k a) w Q E)
      → Post (lift r >>= k) w Q E
  Post-field {r} next = Post-then (Post-lift r next e)

  pub Post-found :
      (o : Option A) (f : Failure) {k : A → M B}
      → ((a : A) → o ≡ some a → Post (k a) w Q E)
      → Post (found_or o f >>= k) w Q E
  Post-found o f next = Post-then (Post-found_or o f next e)

  pub Post-object :
      (error : A → Option Text) (a : A) (k : A → M B)
      → (error a ≡ none → Post (k a) w Q E)
      → Post (construct error a >>= k) w Q E
  Post-object error a k next = Post-then (Post-construct error a next e)
