-- ===== src/Service/Options.antt =====
-- internal/app/service/options.go: the product that the connector offers.
use cm_saas_letsencrypt_ca_c.Base.{
  ℕ, ◌+◌, ◌/◌, ◌%◌, List, [], ◌∷◌, ◌++◌, Text, text, trim_space, take, drop, ltb, if◌then◌else◌,
}
use cm_saas_letsencrypt_ca_c.Domain.{Connection, ssl, ProductOption}
use cm_saas_letsencrypt_ca_c.Service.{Platform, directory_url_of}

abbrev pub product_option_name : Text
product_option_name = text "Let's Encrypt (dns-persist-01)"

unfoldable pub hex_digit : ℕ → ℕ
hex_digit d = if ltb d 10 then 48 + d else 87 + d

-- `%x` of bytes
unfoldable pub hex : Text → Text
hex [] = []
hex (b ∷ bs) = hex_digit (b / 16) ∷ hex_digit (b % 16) ∷ hex bs

-- `b[6] = (b[6] & 0x0f) | 0x10` and `b[8] = (b[8] & 0x3f) | 0x80`; the masks leave the low four and
-- the low six bits.
unfoldable pub stamp : Text → Text
stamp (b0 ∷ b1 ∷ b2 ∷ b3 ∷ b4 ∷ b5 ∷ b6 ∷ b7 ∷ b8 ∷ rest) =
    b0 ∷ b1 ∷ b2 ∷ b3 ∷ b4 ∷ b5 ∷ (16 + b6 % 16) ∷ b7 ∷ (128 + b8 % 64) ∷ rest
stamp b = b

unfoldable pub format_uuid : Text → Text
format_uuid b =
    hex (take 4 b)
    ++ (text "-"
        ++ (hex (take 2 (drop 4 b))
            ++ (text "-"
                ++ (hex (take 2 (drop 6 b))
                    ++ (text "-"
                        ++ (hex (take 2 (drop 8 b)) ++ (text "-" ++ hex (take 6 (drop 10 b)))))))))

module _ (W : Platform) where
  abbrev pub seed_of : Connection → Text
  seed_of conn = trim_space conn.credentials.account_key ++ (text "|" ++ directory_url_of conn)

  unfoldable pub derive_profile_id : Connection → Text
  derive_profile_id conn = format_uuid (stamp (take 16 (W.sha1 (seed_of conn))))

  -- `GetOptions`; the import options are nil.
  unfoldable pub get_options : Connection → List ProductOption
  get_options conn =
      record {
        name = product_option_name;
        types = ssl ∷ [];
        details = record {
          profile_id = derive_profile_id conn;
          profile_name = product_option_name;
          trust_type = text "public";
          signature_algorithm = text "SHA256withECDSA";
          allowed_key_sizes = text "2048" ∷ text "3072" ∷ text "4096" ∷ [];
        };
      }
      ∷ []
