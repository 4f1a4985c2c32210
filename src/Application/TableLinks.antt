-- ===== src/Application/TableLinks.antt =====
-- larp_bot/application/table_links.py: the links of a table with the providers that have it.
use rolebot_hse.Base.{String, Option, none, some, option_eq, string_eq, ◌==◌, if◌then◌else◌}
use rolebot_hse.Base.Text.{◌&◌}
use rolebot_hse.Errors.{Result, ok, err, Error}
use rolebot_hse.Domain.Event.{Event}

pub record TableProviderLinks : Type 0 where
  pub google : Option String
  pub yandex : Option String

abbrev pub links_text : Option String → Option String → Result String
links_text (some google) (some yandex) =
    ok ("Google Drive: " & google & "\n" & "Яндекс Диск: " & yandex)
links_text (some google) none = ok ("Google Drive: " & google)
links_text none (some yandex) = ok yandex
links_text none none = err Error.runtime_error

-- `for_player`; `for_admin` returns the same.
unfoldable pub for_player : TableProviderLinks → Result String
for_player links = links_text links.google links.yandex

unfoldable pub table_provider_links : Option String → Option String → TableProviderLinks
table_provider_links google_url stored_url = record {
  google = google_url;
  yandex = if stored_url == google_url then none else stored_url;
}

unfoldable pub master_table_links : Event → TableProviderLinks
unfolding table_provider_links
master_table_links event =
    table_provider_links event.master_table_google_url (some event.public_registration_url)

unfoldable pub public_table_links : Event → TableProviderLinks
unfolding table_provider_links
public_table_links event =
    table_provider_links event.public_table_google_url event.public_table_public_url

unfoldable pub pass_table_links : Event → TableProviderLinks
unfolding table_provider_links
pass_table_links event =
    table_provider_links event.pass_table_google_url event.pass_table_public_url
