-- ===== src/CallHooks/Sent.antt =====
-- The headers that a hook sends, and where their secrets come from.
use mathlib.Core.Path.{subst}
use corella.Prelude.{
  ◌≡◌, refl, sym, ap, ◌∙◌, Bool, true, false, Option, none, some, List, [], ◌∷◌, ◌++◌, append_assoc,
  if◌then◌else◌, if-elim, any, All, Text, codes, text_eq, text_eq_iff, text_eq_refl, Bool-cases,
  Option-cases, inl, inr,
}
use corella.CallHooks.Secrets.{Dict, get, put, merge, AppSecret, decrypt_all, decrypted}
use corella.CallHooks.Dispatch.{CallType, HookMeeting, mandatory_headers}
use corella.CallHooks.Calls.{World, pre_request, post_request}

get-put :
    (key k v : Text) (dict : Dict)
    → get key (put k v dict) ≡ (if text_eq k key then some v else get key dict)
get-put key k v [] = refl
get-put key k v ((k', v') ∷ dict) = elim (Bool-cases (text_eq k' k)) [
  | inl found ↦
      rw found (let e : k' ≡ k = (text_eq_iff k' k).0 found in rw e (twice (text_eq k key)))
  | inr other ↦
      rw (other, get-put key k v dict)
        (apart (text_eq k' key) (text_eq k key) (λ p q.
          cc ((text_eq_iff k' k).1 ((text_eq_iff k' key).0 p ∙ sym ((text_eq_iff k key).0 q)))))
]
  where
    twice :
        (b : Bool)
        → (if b then some v else get key dict)
          ≡ (if b then some v else if b then some v' else get key dict)
    twice true = refl
    twice false = refl

    apart :
        (a b : Bool)
        → (a ≡ true → b ≡ true → ⊥)
        → (if a then some v' else if b then some v else get key dict)
          ≡ (if b then some v else if a then some v' else get key dict)
    apart true true h = absurd (h refl refl)
    apart true false h = refl
    apart false b h = refl

-- The first value that is there.
abbrev pub first_of : Option Text → Option Text → Option Text
first_of none other = other
first_of (some v) other = some v

-- No name comes twice.
abbrev pub IsDistinct : Dict → Type 0
IsDistinct [] = Unit
IsDistinct ((k, v) ∷ dict) = (get k dict ≡ none) × IsDistinct dict

get-merge_distinct :
    (key : Text) (dict other : Dict)
    → IsDistinct other
    → get key (merge dict other) ≡ first_of (get key other) (get key dict)
get-merge_distinct key dict [] h = refl
get-merge_distinct key dict ((k, v) ∷ other) h =
    get-merge_distinct key (put k v dict) other h.1 ∙ elim (Bool-cases (text_eq k key)) [
      | inl same ↦
          rw
            (
              get-put key k v dict,
              same,
              ap (λ t. get t other) (sym ((text_eq_iff k key).0 same)) ∙ h.0,
            )
            refl
      | inr other_name ↦ rw (get-put key k v dict, other_name) refl
    ]

abbrev pub content_type : Dict
content_type = (codes "Content-Type", codes "application/json") ∷ []

-- The headers of both hooks' requests, name by name, where no two custom headers have exactly one name: the
-- mandatory header of exactly that name, else the custom one, and for a post-call else its Content-Type. So
-- every mandatory header is sent with its value,
-- and a custom header of any other name is sent as it is, also one whose name differs from a mandatory one
-- in nothing but case.
pub get-merge :
    (world : World) (meeting : HookMeeting) (call_type : CallType) (body key : Text) (custom : Dict)
    → IsDistinct custom
    → let mandatory : Dict = mandatory_headers world.settings meeting in
      let pre : Dict = (pre_request world meeting call_type custom).headers in
      let post : Dict = (post_request world meeting call_type body custom).headers in
      (get key pre ≡ first_of (get key mandatory) (get key custom))
      × (get key post
          ≡ first_of (get key mandatory) (first_of (get key custom) (get key content_type)))
      × All
          (λ header. (get header.0 pre ≡ some header.1) × (get header.0 post ≡ some header.1))
          mandatory
unfolding mandatory_headers
get-merge world meeting call_type body key custom distinct =
    let mandatory : Dict = mandatory_headers world.settings meeting in
    let listed : IsDistinct mandatory = (refl, (refl, (refl, (refl, tt)))) in
    (
      get-merge_distinct key custom mandatory listed,
      get-merge_distinct key (merge content_type custom) mandatory listed
          ∙ ap (first_of (get key mandatory)) (get-merge_distinct key content_type custom distinct),
      (
        (simp get-put, simp get-put),
        (
          (simp get-put, simp get-put),
          ((simp get-put, simp get-put), ((simp get-put, simp get-put), tt)),
        ),
      ),
    )

any-member : (v : Text) (pre post : List Text) → any (text_eq v) (pre ++ v ∷ post) ≡ true
unfolding any
any-member v [] post = rw (text_eq_refl v) refl
any-member v (w ∷ pre) post =
    if-elim (λ b. b ≡ true) (text_eq v w) true (any (text_eq v) (pre ++ v ∷ post)) (λ e. refl)
      (λ e. any-member v pre post)

listed_after : (pre post : List Text) → All (λ v. any (text_eq v) (pre ++ post) ≡ true) post
listed_after pre [] = tt
listed_after pre (v ∷ post) = (
  any-member v pre post,
  subst (λ whole. All (λ u. any (text_eq u) whole ≡ true) post) (append_assoc pre (v ∷ []) post)
      (listed_after (pre ++ v ∷ []) post),
)

module _ (decrypt : Text → Option Text) (P : Text → Type 0) where
  abbrev Values : Dict → Type 0
  Values = All (λ pair. P pair.1)

  put-Values :
      (key value : Text) (dict : Dict) → P value → Values dict → Values (put key value dict)
  put-Values key value [] p h = (p, tt)
  put-Values key value ((k, v) ∷ dict) p h =
      if-elim Values (text_eq k key) ((k, value) ∷ dict) ((k, v) ∷ put key value dict)
        (λ e. (p, h.1)) (λ e. (h.0, put-Values key value dict p h.1))

  decrypt_all-none : (rows : List AppSecret) → decrypt_all decrypt rows none ≡ none
  unfolding decrypt_all
  decrypt_all-none [] = refl
  decrypt_all-none (row ∷ rows) = decrypt_all-none rows

  -- What a row decrypts to has the property.
  abbrev Decrypts : AppSecret → Type 0
  Decrypts row = (v : Text) → decrypt row.value_encrypted ≡ some v → P v

  decrypt_all-Values :
      (rows : List AppSecret) (dict values : Dict)
      → Values dict
      → All Decrypts rows
      → decrypt_all decrypt rows (some dict) ≡ some values
      → Values values
  unfolding decrypt_all
  decrypt_all-Values [] dict values h k e =
      subst (λ (o : Option Dict). elim o as (λ x. Type 0) [ none ↦ Unit | some d ↦ Values d ]) e h
  decrypt_all-Values (row ∷ rows) dict values h k e =
      elim (Option-cases (decrypt row.value_encrypted)) [
        | inl lost ↦ cc (decrypt_all-none rows, rw lost at e)
        | inr (v, found) ↦
            decrypt_all-Values rows (put row.name v dict) values
              (put-Values row.name v dict (k.0 v found) h) k.1 (rw found at e)
      ]

decrypted-Decrypts :
    (decrypt : Text → Option Text) (rows : List AppSecret) (P : Text → Type 0)
    → All P (decrypted decrypt rows)
    → All (Decrypts decrypt P) rows
unfolding decrypted
decrypted-Decrypts decrypt [] P h = tt
decrypted-Decrypts decrypt (row ∷ rows) P h = elim (Option-cases (decrypt row.value_encrypted)) [
  | inl lost ↦ (λ v e. cc, decrypted-Decrypts decrypt rows P (rw lost at h))
  | inr (w, found) ↦
      let both : P w × All P (decrypted decrypt rows) = rw found at h in
      (
        λ v e.
            subst (λ (o : Option Text). elim o as (λ x. Type 0) [ none ↦ Unit | some u ↦ P u ])
              (sym found ∙ e) both.0,
        decrypted-Decrypts decrypt rows P both.1,
      )
]

-- Where the headers are resolved: every value that can be put into them is one of those that the
-- redaction of the log hides.
pub decrypt_all-decrypted :
    (decrypt : Text → Option Text) (rows : List AppSecret) (values : Dict)
    → decrypt_all decrypt rows (some []) ≡ some values
    → All (λ pair. any (text_eq pair.1) (decrypted decrypt rows) ≡ true) values
decrypt_all-decrypted decrypt rows values e =
    let P : Text → Type 0 = λ v. any (text_eq v) (decrypted decrypt rows) ≡ true in
    decrypt_all-Values decrypt P rows [] values tt
      (decrypted-Decrypts decrypt rows P (listed_after [] (decrypted decrypt rows))) e
