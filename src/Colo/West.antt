-- ===== src/Colo/West.antt =====
-- colo.go: the table of data centres, Africa and the Americas.
use ip_unt1_com.Prelude.{List, [], ◌∷◌}
use ip_unt1_com.Colo.Row.{Colo, colo}

unfoldable pub africa : List Colo
africa =
    colo "ALG" "Algiers" "DZ"
    ∷ colo "CAI" "Cairo" "EG"
    ∷ colo "CMN" "Casablanca" "MA"
    ∷ colo "CPT" "Cape Town" "ZA"
    ∷ colo "DAR" "Dar es Salaam" "TZ"
    ∷ colo "DKR" "Dakar" "SN"
    ∷ colo "DUR" "Durban" "ZA"
    ∷ colo "JIB" "Djibouti" "DJ"
    ∷ colo "JNB" "Johannesburg" "ZA"
    ∷ colo "KGL" "Kigali" "RW"
    ∷ colo "LAD" "Luanda" "AO"
    ∷ colo "LOS" "Lagos" "NG"
    ∷ colo "MBA" "Mombasa" "KE"
    ∷ colo "MPM" "Maputo" "MZ"
    ∷ colo "MRU" "Port Louis" "MU"
    ∷ colo "NBO" "Nairobi" "KE"
    ∷ colo "RUN" "Réunion" "RE"
    ∷ colo "TUN" "Tunis" "TN"
    ∷ []

unfoldable pub north_america : List Colo
north_america =
    colo "ATL" "Atlanta" "US"
    ∷ colo "BOS" "Boston" "US"
    ∷ colo "BUF" "Buffalo" "US"
    ∷ colo "CLE" "Cleveland" "US"
    ∷ colo "CLT" "Charlotte" "US"
    ∷ colo "CMH" "Columbus" "US"
    ∷ colo "DEN" "Denver" "US"
    ∷ colo "DFW" "Dallas" "US"
    ∷ colo "DTW" "Detroit" "US"
    ∷ colo "EWR" "Newark" "US"
    ∷ colo "FOR" "Fortaleza" "BR"
    ∷ colo "HNL" "Honolulu" "US"
    ∷ colo "IAD" "Ashburn" "US"
    ∷ colo "IAH" "Houston" "US"
    ∷ colo "IND" "Indianapolis" "US"
    ∷ colo "JAX" "Jacksonville" "US"
    ∷ colo "LAS" "Las Vegas" "US"
    ∷ colo "LAX" "Los Angeles" "US"
    ∷ colo "MCI" "Kansas City" "US"
    ∷ colo "MCO" "Orlando" "US"
    ∷ colo "MEM" "Memphis" "US"
    ∷ colo "MFE" "McAllen" "US"
    ∷ colo "MIA" "Miami" "US"
    ∷ colo "MSP" "Minneapolis" "US"
    ∷ colo "OKC" "Oklahoma City" "US"
    ∷ colo "OMA" "Omaha" "US"
    ∷ colo "ORD" "Chicago" "US"
    ∷ colo "PDX" "Portland" "US"
    ∷ colo "PHL" "Philadelphia" "US"
    ∷ colo "PHX" "Phoenix" "US"
    ∷ colo "PIT" "Pittsburgh" "US"
    ∷ colo "RIC" "Richmond" "US"
    ∷ colo "SAN" "San Diego" "US"
    ∷ colo "SAT" "San Antonio" "US"
    ∷ colo "SEA" "Seattle" "US"
    ∷ colo "SJC" "San Jose" "US"
    ∷ colo "SLC" "Salt Lake City" "US"
    ∷ colo "SMF" "Sacramento" "US"
    ∷ colo "STL" "St. Louis" "US"
    ∷ colo "TPA" "Tampa" "US"
    ∷ colo "TLH" "Tallahassee" "US"
    ∷ colo "YHZ" "Halifax" "CA"
    ∷ colo "YOW" "Ottawa" "CA"
    ∷ colo "YUL" "Montréal" "CA"
    ∷ colo "YVR" "Vancouver" "CA"
    ∷ colo "YWG" "Winnipeg" "CA"
    ∷ colo "YXE" "Saskatoon" "CA"
    ∷ colo "YYC" "Calgary" "CA"
    ∷ colo "YYZ" "Toronto" "CA"
    ∷ colo "GDL" "Guadalajara" "MX"
    ∷ colo "MEX" "Mexico City" "MX"
    ∷ colo "MTY" "Monterrey" "MX"
    ∷ colo "QRO" "Querétaro" "MX"
    ∷ []

unfoldable pub central_america : List Colo
central_america =
    colo "GUA" "Guatemala City" "GT"
    ∷ colo "HAV" "Havana" "CU"
    ∷ colo "KIN" "Kingston" "JM"
    ∷ colo "NAS" "Nassau" "BS"
    ∷ colo "PAP" "Port-au-Prince" "HT"
    ∷ colo "PTY" "Panama City" "PA"
    ∷ colo "SAL" "San Salvador" "SV"
    ∷ colo "SDQ" "Santo Domingo" "DO"
    ∷ colo "SJO" "San José" "CR"
    ∷ colo "SJU" "San Juan" "PR"
    ∷ colo "TGU" "Tegucigalpa" "HN"
    ∷ colo "WDH" "Windhoek" "NA"
    ∷ []

unfoldable pub south_america : List Colo
south_america =
    colo "AEP" "Buenos Aires" "AR"
    ∷ colo "ARI" "Arica" "CL"
    ∷ colo "ASU" "Asunción" "PY"
    ∷ colo "BEL" "Belém" "BR"
    ∷ colo "BNU" "Blumenau" "BR"
    ∷ colo "BOG" "Bogotá" "CO"
    ∷ colo "BSB" "Brasília" "BR"
    ∷ colo "CCS" "Caracas" "VE"
    ∷ colo "CFC" "Caçador" "BR"
    ∷ colo "CGB" "Cuiabá" "BR"
    ∷ colo "CNF" "Belo Horizonte" "BR"
    ∷ colo "CGR" "Campo Grande" "BR"
    ∷ colo "CWB" "Curitiba" "BR"
    ∷ colo "EZE" "Buenos Aires" "AR"
    ∷ colo "FLN" "Florianópolis" "BR"
    ∷ colo "GIG" "Rio de Janeiro" "BR"
    ∷ colo "GUA2" "Guayaquil" "EC"
    ∷ colo "GYE" "Guayaquil" "EC"
    ∷ colo "GRU" "São Paulo" "BR"
    ∷ colo "JDO" "Juazeiro do Norte" "BR"
    ∷ colo "LIM" "Lima" "PE"
    ∷ colo "LPB" "La Paz" "BO"
    ∷ colo "MAO" "Manaus" "BR"
    ∷ colo "MDE" "Medellín" "CO"
    ∷ colo "MVD" "Montevideo" "UY"
    ∷ colo "POA" "Porto Alegre" "BR"
    ∷ colo "REC" "Recife" "BR"
    ∷ colo "SCL" "Santiago" "CL"
    ∷ colo "SSA" "Salvador" "BR"
    ∷ colo "UIO" "Quito" "EC"
    ∷ colo "VCP" "Campinas" "BR"
    ∷ colo "VIX" "Vitória" "BR"
    ∷ []
