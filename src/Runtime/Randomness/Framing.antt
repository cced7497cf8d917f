-- ===== src/Runtime/Randomness/Framing.antt =====
-- The bytes of `frameHmacSha256V1Input`.
use lldm.Prelude.{
  ℕ, ◌/◌, ◌%◌, ◌^◌, ◌≤◌, ◌≡◌, refl, ap, sym, ◌∙◌, arith, String, List, [], ◌∷◌, ◌++◌, length, ok,
  >>=-eq-ok,
}
use mathlib.Core.List.{append_assoc, append-nil}
use lldm.Runtime.Randomness.{
  uint32, frame_string, FrameInput, frame_hmac_sha256_v1_input, domain_tag, uint32_maximum,
}

append_cancel :
    (xs ys us vs : List ℕ) → length xs ≡ length ys → xs ++ us ≡ ys ++ vs → (xs ≡ ys) × (us ≡ vs)
append_cancel [] [] us vs n h = (refl, h)
append_cancel [] (y ∷ ys) us vs n h = absurd (omega (arith, n))
append_cancel (x ∷ xs) [] us vs n h = absurd (omega (arith, n))
append_cancel (x ∷ xs) (y ∷ ys) us vs n h = ground (arith, append_cancel xs ys us vs)

bytes-injective :
    (n m : ℕ)
    → n ≤ uint32_maximum
    → m ≤ uint32_maximum
    → n / 2 ^ 24 % 256 ≡ m / 2 ^ 24 % 256
    → n / 2 ^ 16 % 256 ≡ m / 2 ^ 16 % 256
    → n / 2 ^ 8 % 256 ≡ m / 2 ^ 8 % 256
    → n % 256 ≡ m % 256
    → n ≡ m
bytes-injective n m hn hm a b c d = omega arith

-- Four bytes at the front determine the number, and the bytes behind them.
uint32-front :
    (n m : ℕ) (x y us vs : List ℕ)
    → uint32 n ≡ ok x
    → uint32 m ≡ ok y
    → x ++ us ≡ y ++ vs
    → (n ≡ m) × (us ≡ vs)
unfolding uint32
uint32-front n m x y us vs hx hy h = ground (arith, bytes-injective n m)

ok_injective : {x y : List ℕ} → ok x ≡ ok y → x ≡ y
ok_injective h = cc

same_input :
    {i j : FrameInput}
    → i.campaign_id ≡ j.campaign_id
    → i.command_id ≡ j.command_id
    → i.purpose ≡ j.purpose
    → i.purpose_local_index ≡ j.purpose_local_index
    → i.block_counter ≡ j.block_counter
    → i ≡ j
same_input a b c d e = cc

module _ (encode : String → List ℕ) (injective : (a b : String) → encode a ≡ encode b → a ≡ b) where
  -- A framed text at the front determines the text, and the bytes behind it.
  frame_string-front :
      (a b : String) (x y us vs : List ℕ)
      → frame_string encode a ≡ ok x
      → frame_string encode b ≡ ok y
      → x ++ us ≡ y ++ vs
      → (a ≡ b) × (us ≡ vs)
  unfolding frame_string
  frame_string-front a b x y us vs hx hy h =
      let (size, sized, ex) = >>=-eq-ok (uint32 (length (encode a))) _ hx in
      let (other, measured, ey) = >>=-eq-ok (uint32 (length (encode b))) _ hy in
      let whole : size ++ (encode a ++ us) ≡ other ++ (encode b ++ vs) =
        sym (append_assoc size (encode a) us)
        ∙ ap (λ z. z ++ us) (ok_injective ex)
        ∙ h
        ∙ ap (λ z. z ++ vs) (sym (ok_injective ey))
        ∙ append_assoc other (encode b) vs in
      let (long, behind) =
        uint32-front (length (encode a)) (length (encode b)) size other _ _ sized measured whole in
      let (text, later) = append_cancel (encode a) (encode b) us vs long behind in
      (injective a b text, later)

  -- The six parts of a framed input.
  record Framed (i : FrameInput) (bytes : List ℕ) : Type 0 where
    tag : List ℕ
    campaign : List ℕ
    command : List ℕ
    purpose : List ℕ
    index : List ℕ
    block : List ℕ
    frames_tag : frame_string encode domain_tag ≡ ok tag
    frames_campaign : frame_string encode i.campaign_id ≡ ok campaign
    frames_command : frame_string encode i.command_id ≡ ok command
    frames_purpose : frame_string encode i.purpose ≡ ok purpose
    frames_index : uint32 i.purpose_local_index ≡ ok index
    frames_block : uint32 i.block_counter ≡ ok block
    whole : tag ++ (campaign ++ (command ++ (purpose ++ (index ++ block)))) ≡ bytes

  frame-Framed :
      (i : FrameInput) (bytes : List ℕ)
      → frame_hmac_sha256_v1_input encode i ≡ ok bytes
      → Framed i bytes
  unfolding frame_hmac_sha256_v1_input
  frame-Framed i bytes h =
      let (tag, tagged, h1) = >>=-eq-ok (frame_string encode domain_tag) _ h in
      let (campaign, c, h2) = >>=-eq-ok (frame_string encode i.campaign_id) _ h1 in
      let (command, d, h3) = >>=-eq-ok (frame_string encode i.command_id) _ h2 in
      let (purpose, p, h4) = >>=-eq-ok (frame_string encode i.purpose) _ h3 in
      let (index, n, h5) = >>=-eq-ok (uint32 i.purpose_local_index) _ h4 in
      let (block, b, h6) = >>=-eq-ok (uint32 i.block_counter) _ h5 in
      record {
        tag = tag;
        campaign = campaign;
        command = command;
        purpose = purpose;
        index = index;
        block = block;
        frames_tag = tagged;
        frames_campaign = c;
        frames_command = d;
        frames_purpose = p;
        frames_index = n;
        frames_block = b;
        whole = ok_injective h6;
      }

  -- Two inputs with one framed text are the same input: no field can run into the next one.
  pub frame-injective :
      (i j : FrameInput) (bytes : List ℕ)
      → frame_hmac_sha256_v1_input encode i ≡ ok bytes
      → frame_hmac_sha256_v1_input encode j ≡ ok bytes
      → i ≡ j
  frame-injective i j bytes hi hj =
      let f = frame-Framed i bytes hi in
      let g = frame-Framed j bytes hj in
      let (_, r1) =
        frame_string-front domain_tag domain_tag f.tag g.tag _ _ f.frames_tag g.frames_tag
          (f.whole ∙ sym g.whole) in
      let (campaign, r2) =
        frame_string-front i.campaign_id j.campaign_id f.campaign g.campaign _ _ f.frames_campaign
          g.frames_campaign r1 in
      let (command, r3) =
        frame_string-front i.command_id j.command_id f.command g.command _ _ f.frames_command
          g.frames_command r2 in
      let (purpose, r4) =
        frame_string-front i.purpose j.purpose f.purpose g.purpose _ _ f.frames_purpose
          g.frames_purpose r3 in
      let (index, r5) =
        uint32-front i.purpose_local_index j.purpose_local_index f.index g.index _ _ f.frames_index
          g.frames_index r4 in
      let (block, _) =
        uint32-front i.block_counter j.block_counter f.block g.block [] [] f.frames_block
          g.frames_block (append-nil f.block ∙ r5 ∙ sym (append-nil g.block)) in
      same_input campaign command purpose index block
