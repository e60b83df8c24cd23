-- ===== src/Udperf/Options.antt =====
-- How the options of udperf.cc decide what is called.
use rtp_benchmarks.Common.{
  ℕ, ◌≡◌, refl, Bool, true, ◌||◌, List, [], ◌∷◌, some, arith, All, ◌==◌, if◌then◌else◌, Bool-cases,
  inl, inr, ◌⊎◌, u16,
}
use rtp_benchmarks.Udperf.{Settings, read_option, read_options}

abbrev pub is_known : ℕ → Bool
is_known c = (c == 99) || (c == 115) || (c == 112) || (c == 105)

-- The argument of the last option with a character that satisfies the test, or what there was.
abbrev pub last_of {ℓ} : {A : Type ℓ} → (ℕ → Bool) → (List ℕ → A) → List (ℕ × List ℕ) → A → A
last_of test f [] a = a
last_of test f ((c, optarg) ∷ rest) a = last_of test f rest (if test c then f optarg else a)

abbrev pub names_address : ℕ → Bool
names_address c = (c == 99) || (c == 115)

abbrev pub read : (List ℕ → ℕ) → List (ℕ × List ℕ) → Settings → Settings
read atoi options s = record {
  address = last_of names_address (λ a. a) options s.address;
  port = last_of (λ c. c == 112) (λ a. u16 (atoi a)) options s.port;
  run_client = last_of (λ c. c == 99) (λ a. true) options s.run_client;
  run_server = last_of (λ c. c == 115) (λ a. true) options s.run_server;
  packet_size = last_of (λ c. c == 105) atoi options s.packet_size;
}

abbrev pub IsKnown : ℕ × List ℕ → Type 0
IsKnown option = is_known option.0 ≡ true

-- One option changes what is read of it.
read_option_lem :
    (atoi : List ℕ → ℕ) (c : ℕ) (optarg : List ℕ) (s : Settings)
    → is_known c ≡ true
    → read_option atoi c optarg s ≡ some (read atoi ((c, optarg) ∷ []) s)
unfolding read_option
read_option_lem atoi c optarg s h = elim (known c h) [
  | inl (inl e) ↦ rw e refl
  | inl (inr e) ↦ rw e refl
  | inr (inl e) ↦ rw e refl
  | inr (inr e) ↦ rw e refl
]
  where
    known : (k : ℕ) → is_known k ≡ true → ((k ≡ 99) ⊎ (k ≡ 115)) ⊎ ((k ≡ 112) ⊎ (k ≡ 105))
    known k t = elim (Bool-cases (k == 99)) [
      | inl e ↦ inl (inl (ground arith))
      | inr e ↦ elim (Bool-cases (k == 115)) [
        | inl f ↦ inl (inr (ground arith))
        | inr f ↦ elim (Bool-cases (k == 112)) [
          | inl g ↦ inr (inl (ground arith))
          | inr g ↦ inr (inr (ground arith))
        ]
      ]
    ]

-- Whatever order the options have and however often each is given, when all of them are known each
-- setting is the argument of the last option that sets it, or what it was before; the address is that
-- of the last `-c` or `-s`, for both ends.
pub read_options-last :
    (atoi : List ℕ → ℕ) (options : List (ℕ × List ℕ)) (s : Settings)
    → All IsKnown options
    → read_options atoi options s ≡ some (read atoi options s)
unfolding read_options
read_options-last atoi [] s a = refl
read_options-last atoi ((c, optarg) ∷ rest) s (h, a) =
    rw (read_option_lem atoi c optarg s h)
      (read_options-last atoi rest (read atoi ((c, optarg) ∷ []) s) a)
