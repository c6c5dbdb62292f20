-- ===== src/Publisher/Created.antt =====
-- What a successful `create` leaves in the file.
use crossbar.Base.{
  ℕ, ◌≡◌, refl, sym, ap, ◌∙◌, inl, inr, Option, some, List, [], Bool-cases, Option-cases,
}
use crossbar.Error.{Error, Result, ok, err}
use crossbar.Layout.{Config}
use crossbar.Region.Pool.{init_free_list}
use crossbar.Publisher.Blocks.{update_heartbeat}
use crossbar.Publisher.Files.{RegionFile, opened, is_symlink, open_failed, validate_name}
use crossbar.Publisher.Create.{
  CreateCalls, Owner, check_config, zero_memory, written_header, init_rings, init_region,
  create_file, lock_and_create, create,
}

abbrev Outcome : Type 0
Outcome = Result Owner × Option RegionFile

-- The file after all steps, with `t` as the heartbeat.
abbrev pub made : (pid size t : ℕ) → Config → RegionFile
made pid size t config = record {
  len = size;
  header = written_header pid config;
  memory =
      init_rings config.max_topics 0
        (update_heartbeat (some t) (init_free_list (zero_memory config))).1;
}

-- What success says: the checks passed, and the file is as above.
pub record Made (calls : CreateCalls) (config : Config) (owner : Owner) (f : RegionFile)
    : Type 0 where
  pub size : ℕ
  pub t : ℕ
  pub checked : check_config config ≡ ok size
  pub clock : calls.now ≡ some t
  pub file : f ≡ made calls.pid size t config
  pub cache : owner.publisher.block_cache ≡ []

abbrev Success : Owner → RegionFile → Outcome
Success owner f = (ok owner, some f)

pair_0 : {a c : Result Owner} {b d : Option RegionFile} → ◌≡◌ {A = Outcome} (a, b) (c, d) → a ≡ c
pair_0 e = ap (λ (o : Outcome). o.0) e

pair_1 : {a c : Result Owner} {b d : Option RegionFile} → ◌≡◌ {A = Outcome} (a, b) (c, d) → b ≡ d
pair_1 e = ap (λ (o : Outcome). o.1) e

unsome : {a b : RegionFile} → ◌≡◌ {A = Option RegionFile} (some a) (some b) → a ≡ b
unsome e = cc

unok : {a b : Owner} → ◌≡◌ {A = Result Owner} (ok a) (ok b) → a ≡ b
unok e = cc

no_success :
    (e : Error) (o : Option RegionFile) (owner : Owner) (f : RegionFile)
    → ◌≡◌ {A = Outcome} (err e, o) (Success owner f)
    → ⊥
no_success e o owner f h = let bad = pair_0 h in cc

init_region-Made :
    (calls : CreateCalls) (name : List ℕ) (config : Config) (size : ℕ) (owner : Owner)
    (f : RegionFile)
    → check_config config ≡ ok size
    → init_region calls name config size ≡ Success owner f
    → Made calls config owner f
unfolding init_region update_heartbeat
init_region-Made calls name config size owner f checked e = elim (Option-cases calls.now) [
  | inl unset ↦ absurd (no_success _ _ owner f (rw (init_region, unset) at e))
  | inr (t, clock) ↦ elim (Bool-cases calls.shared) [
    | inr refused ↦ absurd (no_success _ _ owner f (rw (init_region, clock, refused) at e))
    | inl granted ↦
        let both = rw (init_region, clock, granted) at e in
        let written = pair_1 both in
        record {
          size = size;
          t = t;
          checked = checked;
          clock = clock;
          file =
              sym (unsome written)
              ∙ ap
                  (λ now. record {
                    len = size;
                    header = written_header calls.pid config;
                    memory =
                        init_rings config.max_topics 0
                          (update_heartbeat now (init_free_list (zero_memory config))).1;
                  })
                  clock;
          cache = ap (λ (o : Owner). o.publisher.block_cache) (sym (unok (pair_0 both)));
        }
  ]
]

create_file-Made :
    (calls : CreateCalls) (name : List ℕ) (config : Config) (size : ℕ) (old : Option RegionFile)
    (owner : Owner) (f : RegionFile)
    → check_config config ≡ ok size
    → create_file calls name config size old ≡ Success owner f
    → Made calls config owner f
unfolding create_file
create_file-Made calls name config size old owner f checked e =
    elim calls.file as (λ o. calls.file ≡ o → Made calls config owner f) [
      | is_symlink ↦ λ eq. absurd (no_success _ _ owner f (rw (create_file, eq) at e))
      | open_failed why ↦ λ eq. absurd (no_success _ _ owner f (rw (create_file, eq) at e))
      | opened u ↦ λ eq.
          elim calls.set_len as (λ o. calls.set_len ≡ o → Made calls config owner f) [
            | err why ↦ λ eq1. absurd (no_success _ _ owner f (rw (create_file, eq, eq1) at e))
            | ok v ↦ λ eq1.
                elim calls.mmap as (λ o. calls.mmap ≡ o → Made calls config owner f) [
                  | err why ↦
                      λ eq2. absurd (no_success _ _ owner f (rw (create_file, eq, eq1, eq2) at e))
                  | ok w ↦ λ eq2.
                      init_region-Made calls name config size owner f checked
                        (rw (create_file, eq, eq1, eq2) at e)
                ]
                  refl
          ]
            refl
    ]
      refl

lock_and_create-Made :
    (calls : CreateCalls) (name : List ℕ) (config : Config) (size : ℕ) (old : Option RegionFile)
    (owner : Owner) (f : RegionFile)
    → check_config config ≡ ok size
    → lock_and_create calls name config size old ≡ Success owner f
    → Made calls config owner f
unfolding lock_and_create
lock_and_create-Made calls name config size old owner f checked e =
    elim calls.lock_file as (λ o. calls.lock_file ≡ o → Made calls config owner f) [
      | err why ↦ λ eq. absurd (no_success _ _ owner f (rw (lock_and_create, eq) at e))
      | ok u ↦ λ eq. elim (Bool-cases calls.exclusive) [
        | inr refused ↦ absurd (no_success _ _ owner f (rw (lock_and_create, eq, refused) at e))
        | inl granted ↦
            create_file-Made calls name config size old owner f checked
              (rw (lock_and_create, eq, granted) at e)
      ]
    ]
      refl

pub create-Made :
    (calls : CreateCalls) (name : List ℕ) (config : Config) (old : Option RegionFile)
    (owner : Owner) (f : RegionFile)
    → create calls name config old ≡ (ok owner, some f)
    → (validate_name name ≡ ok tt) × Made calls config owner f
unfolding create
create-Made calls name config old owner f e =
    elim (validate_name name)
        as (λ o.
          validate_name name ≡ o → (validate_name name ≡ ok tt) × Made calls config owner f) [
            | err why ↦ λ eq. absurd (no_success _ _ owner f (rw (create, eq) at e))
            | ok u ↦ λ eq.
                elim (check_config config)
                    as (λ o.
                      check_config config ≡ o
                      → (validate_name name ≡ ok tt) × Made calls config owner f) [
                        | err why ↦
                            λ eq1. absurd (no_success _ _ owner f (rw (create, eq, eq1) at e))
                        | ok size ↦ λ eq1. (
                          eq,
                          lock_and_create-Made calls name config size old owner f eq1
                              (rw (create, eq, eq1) at e),
                        )
                      ]
                  refl
          ]
      refl
