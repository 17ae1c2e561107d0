-- ===== src/Colo/Europe.antt =====
-- colo.go: the table of data centres, Europe.
use ip_unt1_com.Prelude.{List, [], ◌∷◌}
use ip_unt1_com.Colo.Row.{Colo, colo}

unfoldable pub europe : List Colo
europe =
    colo "AMS" "Amsterdam" "NL"
    ∷ colo "ARN" "Stockholm" "SE"
    ∷ colo "ATH" "Athens" "GR"
    ∷ colo "BCN" "Barcelona" "ES"
    ∷ colo "BEG" "Belgrade" "RS"
    ∷ colo "BRU" "Brussels" "BE"
    ∷ colo "BTS" "Bratislava" "SK"
    ∷ colo "BUD" "Budapest" "HU"
    ∷ colo "CDG" "Paris" "FR"
    ∷ colo "CPH" "Copenhagen" "DK"
    ∷ colo "DME" "Moscow" "RU"
    ∷ colo "DUB" "Dublin" "IE"
    ∷ colo "DUS" "Düsseldorf" "DE"
    ∷ colo "EDI" "Edinburgh" "GB"
    ∷ colo "FCO" "Rome" "IT"
    ∷ colo "FRA" "Frankfurt" "DE"
    ∷ colo "GVA" "Geneva" "CH"
    ∷ colo "HAM" "Hamburg" "DE"
    ∷ colo "HEL" "Helsinki" "FI"
    ∷ colo "IST" "Istanbul" "TR"
    ∷ colo "KBP" "Kyiv" "UA"
    ∷ colo "KEF" "Reykjavík" "IS"
    ∷ colo "KIV" "Chișinău" "MD"
    ∷ colo "KRK" "Kraków" "PL"
    ∷ colo "LCA" "Larnaca" "CY"
    ∷ colo "LED" "St. Petersburg" "RU"
    ∷ colo "LHR" "London" "GB"
    ∷ colo "LIS" "Lisbon" "PT"
    ∷ colo "LJU" "Ljubljana" "SI"
    ∷ colo "LUX" "Luxembourg" "LU"
    ∷ colo "LYS" "Lyon" "FR"
    ∷ colo "MAD" "Madrid" "ES"
    ∷ colo "MAN" "Manchester" "GB"
    ∷ colo "MRS" "Marseille" "FR"
    ∷ colo "MUC" "Munich" "DE"
    ∷ colo "MXP" "Milan" "IT"
    ∷ colo "OSL" "Oslo" "NO"
    ∷ colo "OTP" "Bucharest" "RO"
    ∷ colo "PMO" "Palermo" "IT"
    ∷ colo "PRG" "Prague" "CZ"
    ∷ colo "RIX" "Riga" "LV"
    ∷ colo "SOF" "Sofia" "BG"
    ∷ colo "SKP" "Skopje" "MK"
    ∷ colo "SVO" "Moscow" "RU"
    ∷ colo "SXF" "Berlin" "DE"
    ∷ colo "TIA" "Tirana" "AL"
    ∷ colo "TLL" "Tallinn" "EE"
    ∷ colo "TXL" "Berlin" "DE"
    ∷ colo "VIE" "Vienna" "AT"
    ∷ colo "VNO" "Vilnius" "LT"
    ∷ colo "WAW" "Warsaw" "PL"
    ∷ colo "ZAG" "Zagreb" "HR"
    ∷ colo "ZRH" "Zürich" "CH"
    ∷ []
