-- ===== src/Runtime/Secrets/Trip.antt =====
-- A secret that is put away comes back.
use backup_telebot.Prelude.{
  ℕ, ◌+◌, ◌<◌, ◌≡◌, refl, String, false, not, none, some, [], ◌∷◌, ◌++◌, arith, ==_iff, find, keep,
  find-snoc, find-keep-none, str_eq, str_eq_self,
}
use backup_telebot.Store.{returns, raises, value_error}
use backup_telebot.Runtime.Secrets.{
  Cipher, Secret, SecretStore, has_key, is_expired, put, get, take, opened,
}

-- What is documented of the cipher: decryption under the same nonce and context undoes encryption.
pub record IsCipher (cipher : Cipher) : Type 0 where
  pub undoes :
      (nonce context m : String)
      → cipher.decrypt nonce context (cipher.encrypt nonce context m) ≡ some m

module _ (cipher : Cipher) (law : IsCipher cipher) (user_id : ℕ) (name : String) where
  -- A secret that is put away and taken before it expires comes back as it was; after that it is
  -- not there any more, for `get` as for `take`.
  pub take-put :
      (plaintext nonce : String) (now later : ℕ) (s : SecretStore)
      → str_eq plaintext "" ≡ false
      → later < now + s.timeout
      → let r = take cipher user_id name later (put cipher user_id name plaintext nonce now s).1 in
        (r.0 ≡ returns plaintext)
        × (get cipher user_id name later (put cipher user_id name plaintext nonce now s).1
            ≡ (returns plaintext, (put cipher user_id name plaintext nonce now s).1))
        × ((t : ℕ)
            → get cipher user_id name t r.1
              ≡ (raises (value_error "conversation secret is unavailable or expired"), r.1))
        × ((t : ℕ)
            → take cipher user_id name t r.1
              ≡ (raises (value_error "conversation secret is unavailable or expired"), r.1))
  unfolding put get take
  take-put plaintext nonce now later s h early =
      rw (h, found, fresh) (opens, rw opens refl, λ t. rw gone refl, λ t. rw gone refl)
    where
      item : Secret
      item = record {
        user_id = user_id;
        name = name;
        nonce = nonce;
        ciphertext = cipher.encrypt nonce (cipher.context user_id name) plaintext;
        expires_at = now + s.timeout;
      }

      found :
          find
            (has_key user_id name)
            (keep (λ i. not (has_key user_id name i)) s.items ++ item ∷ [])
          ≡ some item
      found =
          find-snoc (has_key user_id name) (keep (λ i. not (has_key user_id name i)) s.items) item
            (find-keep-none (has_key user_id name) s.items)
            (rw ((==_iff user_id user_id).1 refl, str_eq_self name) refl)

      opens : opened cipher item ≡ returns plaintext
      opens = rw (law.undoes nonce (cipher.context user_id name) plaintext) refl

      fresh : is_expired later item ≡ false
      fresh = ground (arith, early)

      gone :
          find (has_key user_id name) (
            keep
              (λ i. not (has_key user_id name i))
              (keep (λ i. not (has_key user_id name i)) s.items ++ item ∷ []))
          ≡ none
      gone =
          find-keep-none (has_key user_id name)
            (keep (λ i. not (has_key user_id name i)) s.items ++ item ∷ [])
