-- ===== src/Colo/East.antt =====
-- colo.go: the table of data centres, Asia and Oceania.
use ip_unt1_com.Prelude.{List, [], ◌∷◌}
use ip_unt1_com.Colo.Row.{Colo, colo}

unfoldable pub east_asia : List Colo
east_asia =
    colo "CGO" "Zhengzhou" "CN"
    ∷ colo "CKG" "Chongqing" "CN"
    ∷ colo "CTU" "Chengdu" "CN"
    ∷ colo "FOC" "Fuzhou" "CN"
    ∷ colo "FUK" "Fukuoka" "JP"
    ∷ colo "HFE" "Hefei" "CN"
    ∷ colo "HGH" "Hangzhou" "CN"
    ∷ colo "HKG" "Hong Kong" "HK"
    ∷ colo "ICN" "Seoul" "KR"
    ∷ colo "ITM" "Osaka" "JP"
    ∷ colo "KHH" "Kaohsiung" "TW"
    ∷ colo "KIX" "Osaka" "JP"
    ∷ colo "KMG" "Kunming" "CN"
    ∷ colo "KUL" "Kuala Lumpur" "MY"
    ∷ colo "MFM" "Macau" "MO"
    ∷ colo "NGO" "Nagoya" "JP"
    ∷ colo "NKG" "Nanjing" "CN"
    ∷ colo "NRT" "Tokyo" "JP"
    ∷ colo "PEK" "Beijing" "CN"
    ∷ colo "PVG" "Shanghai" "CN"
    ∷ colo "SHA" "Shanghai" "CN"
    ∷ colo "SHE" "Shenyang" "CN"
    ∷ colo "SJW" "Shijiazhuang" "CN"
    ∷ colo "SZX" "Shenzhen" "CN"
    ∷ colo "TAO" "Qingdao" "CN"
    ∷ colo "TNA" "Jinan" "CN"
    ∷ colo "TPE" "Taipei" "TW"
    ∷ colo "TSN" "Tianjin" "CN"
    ∷ colo "ULN" "Ulaanbaatar" "MN"
    ∷ colo "WUH" "Wuhan" "CN"
    ∷ colo "XIY" "Xi'an" "CN"
    ∷ colo "XMN" "Xiamen" "CN"
    ∷ []

unfoldable pub southeast_asia : List Colo
southeast_asia =
    colo "BKK" "Bangkok" "TH"
    ∷ colo "CEB" "Cebu" "PH"
    ∷ colo "CGK" "Jakarta" "ID"
    ∷ colo "CRK" "Clark" "PH"
    ∷ colo "DAD" "Da Nang" "VN"
    ∷ colo "DPS" "Denpasar" "ID"
    ∷ colo "HAN" "Hanoi" "VN"
    ∷ colo "HKT" "Phuket" "TH"
    ∷ colo "JOG" "Yogyakarta" "ID"
    ∷ colo "MNL" "Manila" "PH"
    ∷ colo "PNH" "Phnom Penh" "KH"
    ∷ colo "RGN" "Yangon" "MM"
    ∷ colo "SGN" "Ho Chi Minh City" "VN"
    ∷ colo "SIN" "Singapore" "SG"
    ∷ colo "SUB" "Surabaya" "ID"
    ∷ colo "VTE" "Vientiane" "LA"
    ∷ []

unfoldable pub south_asia : List Colo
south_asia =
    colo "AMD" "Ahmedabad" "IN"
    ∷ colo "BLR" "Bangalore" "IN"
    ∷ colo "BBI" "Bhubaneswar" "IN"
    ∷ colo "BOM" "Mumbai" "IN"
    ∷ colo "CCU" "Kolkata" "IN"
    ∷ colo "CGP" "Chittagong" "BD"
    ∷ colo "CMB" "Colombo" "LK"
    ∷ colo "DAC" "Dhaka" "BD"
    ∷ colo "DEL" "Delhi" "IN"
    ∷ colo "GAU" "Guwahati" "IN"
    ∷ colo "HYD" "Hyderabad" "IN"
    ∷ colo "ISB" "Islamabad" "PK"
    ∷ colo "IXC" "Chandigarh" "IN"
    ∷ colo "JAI" "Jaipur" "IN"
    ∷ colo "KHI" "Karachi" "PK"
    ∷ colo "KTM" "Kathmandu" "NP"
    ∷ colo "LHE" "Lahore" "PK"
    ∷ colo "MAA" "Chennai" "IN"
    ∷ colo "MLE" "Malé" "MV"
    ∷ colo "NAG" "Nagpur" "IN"
    ∷ colo "PAT" "Patna" "IN"
    ∷ colo "PNQ" "Pune" "IN"
    ∷ colo "TAS" "Tashkent" "UZ"
    ∷ colo "THR" "Tehran" "IR"
    ∷ colo "TRV" "Thiruvananthapuram" "IN"
    ∷ []

unfoldable pub west_asia : List Colo
west_asia =
    colo "AMM" "Amman" "JO"
    ∷ colo "AUH" "Abu Dhabi" "AE"
    ∷ colo "BAH" "Manama" "BH"
    ∷ colo "BEY" "Beirut" "LB"
    ∷ colo "BGW" "Baghdad" "IQ"
    ∷ colo "DOH" "Doha" "QA"
    ∷ colo "DXB" "Dubai" "AE"
    ∷ colo "EVN" "Yerevan" "AM"
    ∷ colo "GYD" "Baku" "AZ"
    ∷ colo "JED" "Jeddah" "SA"
    ∷ colo "KWI" "Kuwait City" "KW"
    ∷ colo "MCT" "Muscat" "OM"
    ∷ colo "RUH" "Riyadh" "SA"
    ∷ colo "TBS" "Tbilisi" "GE"
    ∷ colo "TLV" "Tel Aviv" "IL"
    ∷ []

unfoldable pub oceania : List Colo
oceania =
    colo "ADL" "Adelaide" "AU"
    ∷ colo "AKL" "Auckland" "NZ"
    ∷ colo "BNE" "Brisbane" "AU"
    ∷ colo "CBR" "Canberra" "AU"
    ∷ colo "CHC" "Christchurch" "NZ"
    ∷ colo "MEL" "Melbourne" "AU"
    ∷ colo "NOU" "Nouméa" "NC"
    ∷ colo "PER" "Perth" "AU"
    ∷ colo "PPT" "Papeete" "PF"
    ∷ colo "SYD" "Sydney" "AU"
    ∷ colo "WLG" "Wellington" "NZ"
    ∷ []
