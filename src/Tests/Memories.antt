-- ===== src/Tests/Memories.antt =====
-- The lifetime of a TLS object of source/tls.cpp, over a small memory.
use ez.Base.{◌≡◌, ◌∷◌, ℕ, suc, refl, ap, true, false, none, some, List, [], Option, Bool}
use mathlib.Core.List.{Perm, erase, cons-perm_iff_perm-erase}
use mathlib.Core.List.Perm
use mathlib.Core.Path.{subst}
use native.Mathlib.Decide.{ℕ_discrete}
use ez.Tests.Machine.{total}
use ez.Tls.Lifetime.{Memory, IsStore, new, unchecked, listen, destroy}
use ez.Tls.Release.{IsMemory, connects, connect_all, listening_first, destroy-frees}

-- The contexts and the configurations that are allocated.
abbrev Live : Type 0
Live = List ℕ × List ℕ

abbrev memory : Memory
memory = record {
  World = Live;
  tls_client = λ w. (some (suc (total w.0)), (suc (total w.0) ∷ w.0, w.1));
  tls_config_new = λ w. (some (suc (total w.1)), (w.0, suc (total w.1) ∷ w.1));
  set_protocols = λ w c versions. w;
  insecure_noverifycert = λ w c. w;
  insecure_noverifyname = λ w c. w;
  tls_configure = λ w c f. w;
  connect_cbs = λ w c host. w;
  accept_cbs = λ w server. (some (suc (total w.0)), (suc (total w.0) ∷ w.0, w.1));
  tls_free = λ w c. (erase ℕ_discrete w.0 c, w.1);
  tls_config_free = λ w c. (w.0, erase ℕ_discrete w.1 c);
}

some_inj : {m n : ℕ} → some m ≡ some n → m ≡ n
some_inj q = cc

some≢none : {n : ℕ} {A : Type 0} → some n ≡ none → A
some≢none q = absurd (cc)

one_more : (xs ys : List ℕ) (m n : ℕ) → some m ≡ some n → m ∷ xs ≡ ys → Perm ys (n ∷ xs)
one_more xs ys m n e f =
    subst (λ l. Perm l (n ∷ xs)) f
      (subst (λ d. Perm (m ∷ xs) (d ∷ xs)) (some_inj e) (Perm.refl (m ∷ xs)))

one_less : (xs rest : List ℕ) (c : ℕ) → Perm xs (c ∷ rest) → Perm (erase ℕ_discrete xs c) rest
one_less xs rest c p = Perm.symm ((cons-perm_iff_perm-erase ℕ_discrete).0 (Perm.symm p)).1

clients : IsStore memory (λ w. w.0) memory.tls_client memory.tls_free
clients = record {
  made = λ w w' c e. one_more w.0 w'.0 _ c (ap (λ r. r.0) e) (ap (λ r. r.1.0) e);
  not_made = λ w w' e. some≢none (ap (λ r. r.0) e);
  frees = λ w c rest p. one_less w.0 rest c p;
}

settings : IsStore memory (λ w. w.1) memory.tls_config_new memory.tls_config_free
settings = record {
  made = λ w w' c e. one_more w.1 w'.1 _ c (ap (λ r. r.0) e) (ap (λ r. r.1.1) e);
  not_made = λ w w' e. some≢none (ap (λ r. r.0) e);
  frees = λ w c rest p. one_less w.1 rest c p;
}

configured_same :
    (w : Live) (context config : Option ℕ) (b : Bool) → unchecked memory b config w ≡ w
configured_same w context config true = refl
configured_same w context config false = refl

abbrev good : IsMemory memory
good = record {
  contexts = λ w. w.0;
  configs = λ w. w.1;
  client = clients;
  config = settings;
  client_apart = λ w. refl;
  config_apart = λ w. refl;
  free_apart = λ w c. refl;
  config_free_apart = λ w c. refl;
  accepted = λ w w' server c e. one_more w.0 w'.0 _ c (ap (λ r. r.0) e) (ap (λ r. r.1.0) e);
  not_accepted = λ w w' server e. some≢none (ap (λ r. r.0) e);
  accept_apart = λ w server. refl;
  configured = λ w context config b versions host. (
    ap (λ v. v.0) (configured_same w context config b),
    ap (λ v. v.1) (configured_same w context config b),
  );
}

abbrev before : Live
before = (5 ∷ [], 6 ∷ [])

destroy-frees_example :
    let w' = destroy memory (
      connect_all memory
        (connects [] true ∷ connects [] false ∷ [])
        (listening_first memory (some none) (new, before))) in
    Perm w'.0 (5 ∷ []) × Perm w'.1 (6 ∷ [])
destroy-frees_example =
    destroy-frees memory good (some none) (connects [] true ∷ connects [] false ∷ []) before

-- A second `listen` forgets the context of the first one, which is then never freed.
listen_twice :
    (destroy memory (listen memory none (listen memory none (new, before)))).0 ≡ 6 ∷ 5 ∷ []
unfolding destroy listen ℕ_discrete
listen_twice = refl
