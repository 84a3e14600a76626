-- ===== src/Pool/Region/Table.antt =====
-- internal/pool/regions.go: the table of regions and the two maps that init() builds from it.
-- `entry code name aliases` is one line of the table.
use Prim.Native.String.{String}
use chi_jie.Prelude.{List, [], ◌∷◌, ◌++◌, map, Str, text, to_lower, Dict, insert}

pub record RegionInfo : Type 0 where
  pub code : Str
  pub name : Str
  pub aliases : List Str

abbrev entry : String → String → List String → RegionInfo
entry code name aliases = record { code = text code; name = text name; aliases = map text aliases }

abbrev regions_1 : List RegionInfo
regions_1 =
    entry "HK" "香港" ("香港" ∷ "hong kong" ∷ "hongkong" ∷ "hkg" ∷ [])
    ∷ entry "TW" "台湾" ("台湾" ∷ "臺灣" ∷ "taiwan" ∷ "taipei" ∷ [])
    ∷ entry "MO" "澳门" ("澳门" ∷ "澳門" ∷ "macao" ∷ "macau" ∷ [])
    ∷ entry "CN" "中国大陆" ("中国" ∷ "中国大陆" ∷ "中國" ∷ "china" ∷ [])
    ∷ entry "JP" "日本" ("日本" ∷ "japan" ∷ "tokyo" ∷ "osaka" ∷ "jpn" ∷ [])
    ∷ entry "KR" "韩国" ("韩国" ∷ "韓國" ∷ "korea" ∷ "south korea" ∷ "seoul" ∷ [])
    ∷ entry "SG" "新加坡" ("新加坡" ∷ "狮城" ∷ "singapore" ∷ "sgp" ∷ [])
    ∷ entry "TH" "泰国" ("泰国" ∷ "泰國" ∷ "thailand" ∷ "bangkok" ∷ [])
    ∷ entry "VN" "越南" ("越南" ∷ "vietnam" ∷ "viet nam" ∷ [])
    ∷ entry "ID" "印尼" ("印尼" ∷ "印度尼西亚" ∷ "indonesia" ∷ "jakarta" ∷ [])
    ∷ entry "MY" "马来西亚" ("马来" ∷ "馬來" ∷ "马来西亚" ∷ "malaysia" ∷ "kuala lumpur" ∷ [])
    ∷ entry "PH" "菲律宾" ("菲律宾" ∷ "菲律賓" ∷ "philippines" ∷ "manila" ∷ [])
    ∷ entry "KH" "柬埔寨" ("柬埔寨" ∷ "cambodia" ∷ "phnom penh" ∷ [])
    ∷ entry "LA" "老挝" ("老挝" ∷ "寮國" ∷ "laos" ∷ [])
    ∷ entry "MM" "缅甸" ("缅甸" ∷ "緬甸" ∷ "myanmar" ∷ "burma" ∷ [])
    ∷ entry "BN" "文莱" ("文莱" ∷ "汶萊" ∷ "brunei" ∷ [])
    ∷ entry "IN" "印度" ("印度" ∷ "india" ∷ "mumbai" ∷ "delhi" ∷ [])
    ∷ entry "PK" "巴基斯坦" ("巴基斯坦" ∷ "pakistan" ∷ [])
    ∷ entry "BD" "孟加拉" ("孟加拉" ∷ "bangladesh" ∷ [])
    ∷ entry "LK" "斯里兰卡" ("斯里兰卡" ∷ "斯里蘭卡" ∷ "sri lanka" ∷ [])
    ∷ []

abbrev regions_2 : List RegionInfo
regions_2 =
    entry "US" "美国" ("美国" ∷ "美國" ∷ "united states" ∷ "america" ∷ "usa" ∷ "us" ∷ [])
    ∷ entry "CA" "加拿大" ("加拿大" ∷ "canada" ∷ "toronto" ∷ "vancouver" ∷ [])
    ∷ entry "MX" "墨西哥" ("墨西哥" ∷ "mexico" ∷ [])
    ∷ entry "BR" "巴西" ("巴西" ∷ "brazil" ∷ "brasil" ∷ "sao paulo" ∷ [])
    ∷ entry "AR" "阿根廷" ("阿根廷" ∷ "argentina" ∷ [])
    ∷ entry "CL" "智利" ("智利" ∷ "chile" ∷ [])
    ∷ entry "CO" "哥伦比亚" ("哥伦比亚" ∷ "哥倫比亞" ∷ "colombia" ∷ [])
    ∷ entry "PE" "秘鲁" ("秘鲁" ∷ "祕魯" ∷ "peru" ∷ [])
    ∷ entry "GB" "英国"
        ("英国" ∷ "英國" ∷ "united kingdom" ∷ "britain" ∷ "england" ∷ "uk" ∷ "london" ∷ [])
    ∷ entry "IE" "爱尔兰" ("爱尔兰" ∷ "愛爾蘭" ∷ "ireland" ∷ "dublin" ∷ [])
    ∷ entry "FR" "法国" ("法国" ∷ "法國" ∷ "france" ∷ "paris" ∷ [])
    ∷ entry "DE" "德国" ("德国" ∷ "德國" ∷ "germany" ∷ "frankfurt" ∷ "berlin" ∷ [])
    ∷ entry "NL" "荷兰" ("荷兰" ∷ "荷蘭" ∷ "netherlands" ∷ "holland" ∷ "amsterdam" ∷ [])
    ∷ entry "BE" "比利时" ("比利时" ∷ "比利時" ∷ "belgium" ∷ [])
    ∷ entry "LU" "卢森堡" ("卢森堡" ∷ "盧森堡" ∷ "luxembourg" ∷ [])
    ∷ entry "SE" "瑞典" ("瑞典" ∷ "sweden" ∷ "stockholm" ∷ [])
    ∷ entry "NO" "挪威" ("挪威" ∷ "norway" ∷ [])
    ∷ entry "FI" "芬兰" ("芬兰" ∷ "芬蘭" ∷ "finland" ∷ "helsinki" ∷ [])
    ∷ entry "DK" "丹麦" ("丹麦" ∷ "丹麥" ∷ "denmark" ∷ [])
    ∷ entry "IS" "冰岛" ("冰岛" ∷ "冰島" ∷ "iceland" ∷ [])
    ∷ []

abbrev regions_3 : List RegionInfo
regions_3 =
    entry "ES" "西班牙" ("西班牙" ∷ "spain" ∷ "madrid" ∷ [])
    ∷ entry "PT" "葡萄牙" ("葡萄牙" ∷ "portugal" ∷ "lisbon" ∷ [])
    ∷ entry "IT" "意大利" ("意大利" ∷ "italy" ∷ "rome" ∷ "milan" ∷ [])
    ∷ entry "GR" "希腊" ("希腊" ∷ "希臘" ∷ "greece" ∷ "athens" ∷ [])
    ∷ entry "AT" "奥地利" ("奥地利" ∷ "奧地利" ∷ "austria" ∷ [])
    ∷ entry "CH" "瑞士" ("瑞士" ∷ "switzerland" ∷ "zurich" ∷ [])
    ∷ entry "PL" "波兰" ("波兰" ∷ "波蘭" ∷ "poland" ∷ [])
    ∷ entry "CZ" "捷克" ("捷克" ∷ "czech" ∷ "czechia" ∷ [])
    ∷ entry "HU" "匈牙利" ("匈牙利" ∷ "hungary" ∷ [])
    ∷ entry "SK" "斯洛伐克" ("斯洛伐克" ∷ "slovakia" ∷ [])
    ∷ entry "SI" "斯洛文尼亚" ("斯洛文尼亚" ∷ "slovenia" ∷ [])
    ∷ entry "HR" "克罗地亚" ("克罗地亚" ∷ "克羅地亞" ∷ "croatia" ∷ [])
    ∷ entry "RO" "罗马尼亚" ("罗马尼亚" ∷ "羅馬尼亞" ∷ "romania" ∷ [])
    ∷ entry "BG" "保加利亚" ("保加利亚" ∷ "保加利亞" ∷ "bulgaria" ∷ [])
    ∷ entry "RS" "塞尔维亚" ("塞尔维亚" ∷ "塞爾維亞" ∷ "serbia" ∷ [])
    ∷ entry "UA" "乌克兰" ("乌克兰" ∷ "烏克蘭" ∷ "ukraine" ∷ [])
    ∷ entry "BY" "白俄罗斯" ("白俄罗斯" ∷ "belarus" ∷ [])
    ∷ entry "LT" "立陶宛" ("立陶宛" ∷ "lithuania" ∷ [])
    ∷ entry "LV" "拉脱维亚" ("拉脱维亚" ∷ "latvia" ∷ [])
    ∷ entry "EE" "爱沙尼亚" ("爱沙尼亚" ∷ "estonia" ∷ [])
    ∷ []

abbrev regions_4 : List RegionInfo
regions_4 =
    entry "MD" "摩尔多瓦" ("摩尔多瓦" ∷ "moldova" ∷ [])
    ∷ entry "RU" "俄罗斯" ("俄罗斯" ∷ "俄羅斯" ∷ "russia" ∷ "moscow" ∷ [])
    ∷ entry "TR" "土耳其" ("土耳其" ∷ "turkey" ∷ "istanbul" ∷ [])
    ∷ entry "AE" "阿联酋" ("阿联酋" ∷ "阿聯酋" ∷ "uae" ∷ "united arab emirates" ∷ "dubai" ∷ [])
    ∷ entry "SA" "沙特" ("沙特" ∷ "沙烏地" ∷ "saudi arabia" ∷ [])
    ∷ entry "IL" "以色列" ("以色列" ∷ "israel" ∷ [])
    ∷ entry "QA" "卡塔尔" ("卡塔尔" ∷ "qatar" ∷ [])
    ∷ entry "KW" "科威特" ("科威特" ∷ "kuwait" ∷ [])
    ∷ entry "OM" "阿曼" ("阿曼" ∷ "oman" ∷ [])
    ∷ entry "BH" "巴林" ("巴林" ∷ "bahrain" ∷ [])
    ∷ entry "JO" "约旦" ("约旦" ∷ "約旦" ∷ "jordan" ∷ [])
    ∷ entry "LB" "黎巴嫩" ("黎巴嫩" ∷ "lebanon" ∷ [])
    ∷ entry "IQ" "伊拉克" ("伊拉克" ∷ "iraq" ∷ [])
    ∷ entry "IR" "伊朗" ("伊朗" ∷ "iran" ∷ [])
    ∷ entry "AU" "澳大利亚" ("澳大利亚" ∷ "澳洲" ∷ "australia" ∷ "sydney" ∷ "melbourne" ∷ [])
    ∷ entry "NZ" "新西兰" ("新西兰" ∷ "紐西蘭" ∷ "new zealand" ∷ "auckland" ∷ [])
    ∷ entry "ZA" "南非" ("南非" ∷ "south africa" ∷ "johannesburg" ∷ [])
    ∷ entry "EG" "埃及" ("埃及" ∷ "egypt" ∷ [])
    ∷ entry "NG" "尼日利亚" ("尼日利亚" ∷ "nigeria" ∷ [])
    ∷ entry "KE" "肯尼亚" ("肯尼亚" ∷ "kenya" ∷ [])
    ∷ []

abbrev regions_5 : List RegionInfo
regions_5 =
    entry "MA" "摩洛哥" ("摩洛哥" ∷ "morocco" ∷ [])
    ∷ entry "DZ" "阿尔及利亚" ("阿尔及利亚" ∷ "algeria" ∷ [])
    ∷ entry "TN" "突尼斯" ("突尼斯" ∷ "tunisia" ∷ [])
    ∷ entry "UN" "未分组" []
    ∷ []

unfoldable pub regions : List RegionInfo
regions = regions_1 ++ (regions_2 ++ (regions_3 ++ (regions_4 ++ (regions_5))))

add_aliases : Str → List Str → Dict Str → Dict Str
add_aliases code [] m = m
add_aliases code (a ∷ rest) m = add_aliases code rest (insert (to_lower a) code m)

add_regions : List RegionInfo → Dict Str → Dict Str
unfolding add_aliases
add_regions [] m = m
add_regions (r ∷ rest) m = add_regions rest (add_aliases r.code r.aliases m)

add_names : List RegionInfo → Dict Str → Dict Str
add_names [] m = m
add_names (r ∷ rest) m = add_names rest (insert r.code r.name m)

-- regionAliasToCode, with the old "uk" last.
unfoldable pub region_alias_to_code : Dict Str
unfolding add_regions regions insert to_lower
region_alias_to_code = insert (text "uk") (text "GB") (add_regions regions [])

-- regionCodeToName
unfoldable pub region_code_to_name : Dict Str
unfolding add_names regions insert
region_code_to_name = add_names regions []
